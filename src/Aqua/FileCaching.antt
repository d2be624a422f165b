-- ===== src/Aqua/FileCaching.antt =====
-- FileCache of pkg/aqua/filecache.go: the registries in a file. The file system, the clock and JSON are
-- parameters; the lock of the cache makes each method one step.
pub mod Storing
pub mod Store
use aqua_scan_gate.Common.{
  ℕ, ◌+◌, Text, codes, List, [], ◌++◌, Bool, true, false, Option, none, some, Result, ok, err, ltb,
  nat_eq, ◌==◌, if◌then◌else◌,
}
use aqua_scan_gate.Aqua.Registries.{Registry}
use aqua_scan_gate.Aqua.Http.{RegistryCache}
use aqua_scan_gate.Aqua.Lookup
use aqua_scan_gate.Aqua.Lookup.{FileCache}

pub record FileCacheConfig : Type 0 where
  pub cache_dir : Text
  pub cache_file : Text
  pub ttl : ℕ
  pub enabled : Bool

-- fileCacheData
pub record CacheData : Type 0 where
  pub registries : List Registry
  pub fetched_at : ℕ
  pub version : Text

abbrev pub default_cache_dir : Text
default_cache_dir = codes "/tmp/aqua-scan-gate"

abbrev pub default_cache_file : Text
default_cache_file = codes "registries.json"

-- DefaultCacheTTL of client.go: one hour, in nanoseconds
abbrev pub default_cache_ttl : ℕ
default_cache_ttl = 3600000000000

-- `NewFileCache`
unfoldable pub with_cache_defaults : FileCacheConfig → FileCacheConfig
unfolding ◌==◌
with_cache_defaults c = record c {
  cache_dir = if c.cache_dir == [] then default_cache_dir else c.cache_dir;
  cache_file = if c.cache_file == [] then default_cache_file else c.cache_file;
  ttl = if nat_eq c.ttl 0 then default_cache_ttl else c.ttl;
}

-- An error of the package os: `os.IsNotExist(err)` tells `not_exist` apart.
pub data FileError : Type 0 where
  not_exist : FileError
  failed : Text → FileError

-- The calls of the package os, with their arguments in Go's order, the clock, and filepath.Join.
pub record FileSystem (W : Type 0) : Type 0 where
  pub read_file : Text → W → Result FileError Text × W
  pub mkdir_all : Text → ℕ → W → Option Text × W
  pub create_temp : Text → Text → W → Result Text Text × W
  pub write : Text → Text → W → Option Text × W
  pub close : Text → W → Option Text × W
  pub chmod : Text → ℕ → W → Option Text × W
  pub rename : Text → Text → W → Option Text × W
  pub remove : Text → W → Option FileError × W
  pub now : W → ℕ
  pub join : Text → Text → Text

-- encoding/json on the data of the cache
pub record CacheFormat : Type 0 where
  pub encode : CacheData → Result Text Text
  pub decode : Text → Result Text CacheData

-- fmt.Errorf("context: %w", err)
unfoldable pub in_context : Text → Text → Option Text
in_context context e = some (context ++ (codes ": " ++ e))

-- `time.Since(cacheData.FetchedAt) > fc.config.TTL`
unfoldable pub is_past : ℕ → ℕ → CacheData → Bool
is_past now ttl d = ltb (d.fetched_at + ttl) now

module _ {W : Type 0} (fs : FileSystem W) (format : CacheFormat) (config : FileCacheConfig) where
  unfoldable pub cache_file_path : Text
  cache_file_path = fs.join config.cache_dir config.cache_file

  -- what `Get` makes of the data it decoded
  unfoldable pub unless_past : CacheData → W → Option RegistryCache
  unfolding is_past
  unless_past d w =
      if is_past (fs.now w) config.ttl d
      then none
      else some (record { registries = d.registries; fetched_at = d.fetched_at })

  unfoldable pub get_decoded : Result FileError Text → W → Result Text (Option RegistryCache)
  unfolding unless_past
  get_decoded (err not_exist) w = ok none
  get_decoded (err (failed e)) w = err (codes "reading cache file" ++ (codes ": " ++ e))
  get_decoded (ok bytes) w = elim (format.decode bytes) [
    | err e ↦ ok none
    | ok d ↦ ok (unless_past d w)
  ]

  unfoldable pub get : W → Result Text (Option RegistryCache) × W
  unfolding get_decoded cache_file_path
  get w =
      if config.enabled
      then (let r = fs.read_file cache_file_path w in (get_decoded r.0 r.1, r.1))
      else (ok none, w)

  -- a temporary file is removed, and the error of the removal is not seen
  unfoldable pub discard : Text → Text → Text → W → Option Text × W
  unfolding in_context
  discard tmp context e w = (in_context context e, (fs.remove tmp w).1)

  unfoldable pub rename_temp : Text → W → Option Text × W
  unfolding discard cache_file_path
  rename_temp tmp w =
      let r = fs.rename tmp cache_file_path w in
      elim r.0 [ some e ↦ discard tmp (codes "renaming cache file") e r.1 | none ↦ (none, r.1) ]

  unfoldable pub chmod_temp : Text → W → Option Text × W
  unfolding discard rename_temp
  chmod_temp tmp w =
      let r = fs.chmod tmp 384 w in
      elim r.0 [
        | some e ↦ discard tmp (codes "setting cache file permissions") e r.1
        | none ↦ rename_temp tmp r.1
      ]

  unfoldable pub close_temp : Text → W → Option Text × W
  unfolding discard chmod_temp
  close_temp tmp w =
      let r = fs.close tmp w in
      elim r.0 [
        | some e ↦ discard tmp (codes "closing temporary cache file") e r.1
        | none ↦ chmod_temp tmp r.1
      ]

  unfoldable pub write_temp : Text → Text → W → Option Text × W
  unfolding discard close_temp
  write_temp bytes tmp w =
      let r = fs.write tmp bytes w in
      elim r.0 [
        | some e ↦ discard tmp (codes "writing temporary cache file") e (fs.close tmp r.1).1
        | none ↦ close_temp tmp r.1
      ]

  unfoldable pub after_create : Text → Result Text Text → W → Option Text × W
  unfolding write_temp in_context
  after_create bytes (err e) w = (in_context (codes "creating temporary cache file") e, w)
  after_create bytes (ok tmp) w = write_temp bytes tmp w

  unfoldable pub create_file : Text → W → Option Text × W
  unfolding after_create
  create_file bytes w =
      let r = fs.create_temp config.cache_dir (codes "registries-*.tmp") w in
      after_create bytes r.0 r.1

  -- the data that `Set` writes
  unfoldable pub data_of : List Registry → W → CacheData
  data_of registries w = record {
    registries = registries;
    fetched_at = fs.now w;
    version = codes "1";
  }

  unfoldable pub set_encoded : Result Text Text → W → Option Text × W
  unfolding create_file in_context
  set_encoded (err e) w = (in_context (codes "marshaling cache data") e, w)
  set_encoded (ok bytes) w = create_file bytes w

  unfoldable pub ensure_cache_dir : W → Option Text × W
  ensure_cache_dir w = fs.mkdir_all config.cache_dir 448 w

  unfoldable pub after_ensure : List Registry → Option Text → W → Option Text × W
  unfolding set_encoded data_of in_context
  after_ensure registries (some e) w = (in_context (codes "creating cache directory") e, w)
  after_ensure registries none w = set_encoded (format.encode (data_of registries w)) w

  unfoldable pub set : List Registry → W → Option Text × W
  unfolding after_ensure ensure_cache_dir
  set registries w =
      if config.enabled
      then (let r = ensure_cache_dir w in after_ensure registries r.0 r.1)
      else (none, w)

  unfoldable pub clear_error : Option FileError → Option Text
  unfolding in_context
  clear_error none = none
  clear_error (some not_exist) = none
  clear_error (some (failed e)) = in_context (codes "removing cache file") e

  unfoldable pub clear : W → Option Text × W
  unfolding clear_error cache_file_path
  clear w =
      if config.enabled
      then (let r = fs.remove cache_file_path w in (clear_error r.0, r.1))
      else (none, w)

  unfoldable pub expired_decoded : Result FileError Text → W → Bool × Option Text
  unfolding is_past in_context
  expired_decoded (err not_exist) w = (true, none)
  expired_decoded (err (failed e)) w = (true, in_context (codes "reading cache file") e)
  expired_decoded (ok bytes) w = elim (format.decode bytes) [
    | err e ↦ (true, none)
    | ok d ↦ (if is_past (fs.now w) config.ttl d then (true, none) else (false, none))
  ]

  unfoldable pub is_expired : W → (Bool × Option Text) × W
  unfolding expired_decoded cache_file_path
  is_expired w =
      if config.enabled
      then (let r = fs.read_file cache_file_path w in (expired_decoded r.0 r.1, r.1))
      else ((true, none), w)

  -- the methods that the client calls
  abbrev pub file_cache : FileCache W
  file_cache = record { get = get; set = set }

-- ===== src/Aqua/FileCaching/Store.antt =====
-- What the client of pkg/aqua/client.go wants of a cache between processes, and the FileCache of
-- pkg/aqua/filecache.go as such a cache.
use aqua_scan_gate.Common.{
  ◌+◌, ◌≤◌, Text, codes, List, Option, none, some, Result, ok, err, true, false, has_suffix, ◌≡◌,
  ◌≢◌, refl, sym, ◌∙◌, arith,
}
use aqua_scan_gate.Aqua.Registries.{Registry}
use aqua_scan_gate.Aqua.Http.{RegistryCache}
use aqua_scan_gate.Aqua.Lookup.{FileCache}
use aqua_scan_gate.Aqua.FileCaching.{
  FileCacheConfig, CacheData, FileError, FileSystem, CacheFormat, is_past, unless_past, get_decoded,
  ensure_cache_dir, data_of, get, set, file_cache,
}
use aqua_scan_gate.Aqua.FileCaching.Storing.{path, IsFileSystem, IsStored, set-IsStored}

-- The contract, for what a call puts into a cache, and for the states in which it holds a value or will
-- serve one: what was put there without an error is held, a store that fails leaves what was held, and
-- what is held is served.
pub record IsStore {W : Type 0} (files : FileCache W) (put : List Registry → W → RegistryCache)
    (Holds : RegistryCache → W → Type 0) (Serves : RegistryCache → W → Type 0) : Type 0 where
  pub put_whole : (registries : List Registry) (w : W) → (put registries w).registries ≡ registries
  pub stored :
      (registries : List Registry) (w : W)
      → (files.set registries w).0 ≡ none
      → Holds (put registries w) (files.set registries w).1
  pub kept :
      (registries : List Registry) (w : W) (e : Text) (c : RegistryCache)
      → (files.set registries w).0 ≡ some e
      → Holds c w
      → Holds c (files.set registries w).1
  pub served : (c : RegistryCache) (w : W) → Holds c w → Serves c w → (files.get w).0 ≡ ok (some c)

module _ {W : Type 0} (fs : FileSystem W) (format : CacheFormat) (config : FileCacheConfig) where
  -- The file can be read, and its time to live is not over.
  abbrev pub Serves : RegistryCache → W → Type 0
  Serves c w =
      ((e : Text) → (fs.read_file (path fs format config) w).0 ≢ err (FileError.failed e))
      × (fs.now (fs.read_file (path fs format config) w).1 ≤ c.fetched_at + config.ttl)

  -- the registries with the time at which the directory was there
  abbrev pub put_there : List Registry → W → RegistryCache
  put_there registries w = record {
    registries = registries;
    fetched_at = fs.now (ensure_cache_dir fs format config w).1;
  }

  module _ (content : Text → W → Option Text) where
    -- The file has the encoding of the registries and their time.
    abbrev pub Holds : RegistryCache → W → Type 0
    Holds c w =
        (bytes : Text) × (format.encode
            (record { registries = c.registries; fetched_at = c.fetched_at; version = codes "1" })
          ≡ ok bytes)
        × (content (path fs format config) w ≡ some bytes)

module _ {W : Type 0} (fs : FileSystem W) (format : CacheFormat) (config : FileCacheConfig)
    (content : Text → W → Option Text) (files : IsFileSystem fs content) where
  get_decoded-eq-data :
      (bytes : Text) (d : CacheData) (r : Result FileError Text) (v : W)
      → ((c : Text) → r ≡ ok c → c ≡ bytes)
      → (r ≢ err FileError.not_exist)
      → ((e : Text) → r ≢ err (FileError.failed e))
      → format.decode bytes ≡ ok d
      → is_past (fs.now v) config.ttl d ≡ false
      → get_decoded fs format config r v
        ≡ ok (some (record { registries = d.registries; fetched_at = d.fetched_at }))
  unfolding get_decoded unless_past
  get_decoded-eq-data bytes d (ok c) v same _ _ f n = rw (get_decoded, same c refl, f, n) refl
  get_decoded-eq-data bytes d (err FileError.not_exist) v _ there _ f n = absurd (there refl)
  get_decoded-eq-data bytes d (err (FileError.failed e)) v _ _ fine f n = absurd (fine e refl)

  get_holding :
      (bytes : Text) (d : CacheData) (v : W)
      → config.enabled ≡ true
      → content (path fs format config) v ≡ some bytes
      → format.decode bytes ≡ ok d
      → ((e : Text) → (fs.read_file (path fs format config) v).0 ≢ err (FileError.failed e))
      → fs.now (fs.read_file (path fs format config) v).1 ≤ d.fetched_at + config.ttl
      → (get fs format config v).0
        ≡ ok (some (record { registries = d.registries; fetched_at = d.fetched_at }))
  unfolding get is_past
  get_holding bytes d v h held decoded fine young =
      let file = path fs format config in
      let agrees : (c : Text) → (fs.read_file file v).0 ≡ ok c → c ≡ bytes =
        λ c e. let both : some c ≡ some bytes = sym (files.read_ok file v c e) ∙ held in cc in
      let there : (fs.read_file file v).0 ≢ err FileError.not_exist =
        λ e. let both : none ≡ some bytes = sym (files.read_missing file v e) ∙ held in cc in
      rw (get, h) (get_decoded-eq-data bytes d _ _ agrees there fine decoded (ground arith))

  stored-Holds :
      (registries : List Registry) (w : W) (e : Option Text)
      → let made = (ensure_cache_dir fs format config w).1 in
        let after = content (path fs format config) (set fs format config registries w).1 in
        IsStored
          (format.encode (data_of fs format config registries made))
          (content (path fs format config) w)
          e
          after
        → e ≡ none
        → Holds fs format config content
            (put_there fs format config registries w)
            (set fs format config registries w).1
  unfolding data_of
  stored-Holds registries w none h n = h
  stored-Holds registries w (some e) h n = cc

  kept_content :
      (encoded : Result Text Text) (before e after : Option Text) (why : Text)
      → IsStored encoded before e after
      → e ≡ some why
      → after ≡ before
  kept_content encoded before none after why h n = cc
  kept_content encoded before (some e) after why h n = h

  -- An enabled file cache whose file is not named like a temporary one fulfils the contract, on a file
  -- system that keeps to its laws and with a format that decodes what it encodes.
  pub file_cache-IsStore :
      has_suffix (path fs format config) (codes ".tmp") ≡ false
      → config.enabled ≡ true
      → ((d : CacheData) (bytes : Text) → format.encode d ≡ ok bytes → format.decode bytes ≡ ok d)
      → IsStore
          (file_cache fs format config)
          (put_there fs format config)
          (Holds fs format config content)
          (Serves fs format config)
  file_cache-IsStore named h decodes = record {
    put_whole = λ registries w. refl;
    stored = λ registries w n.
        stored-Holds registries w _
          (set-IsStored fs format config content files named registries w h) n;
    kept = λ registries w e c f (bytes, encoded, held). (
      bytes,
      encoded,
      kept_content _ _ _ _ e (set-IsStored fs format config content files named registries w h) f
          ∙ held,
    );
    served = λ c w (bytes, encoded, held) (fine, young).
        get_holding bytes _ w h held (decodes _ bytes encoded) fine young;
  }

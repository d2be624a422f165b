-- ===== src/Tests/Files.antt =====
-- A file system that holds each file as a function of its path.
use aqua_scan_gate.Common.{
  ℕ, Text, codes, List, [], ◌∷◌, ◌++◌, true, Option, none, some, Result, ok, err, ◌==◌, eq_iff,
  if◌then◌else◌, ◌≡◌, ◌≢◌, refl, sym, ap, ◌∙◌, arith, has_suffix, Option-cases, inl, inr,
}
use aqua_scan_gate.Aqua.Registries.{Registry}
use aqua_scan_gate.Aqua.Http.{Network, Formats, ClientState}
use aqua_scan_gate.Aqua.Lookup.{Config, store_registries, get_registries}
use aqua_scan_gate.Aqua.FileCaching.Store.{put_there, IsStore, Holds, Serves, file_cache-IsStore}
use aqua_scan_gate.Aqua.Restart.{get_registries-store_registries}
use aqua_scan_gate.Aqua.FileCaching.{
  file_cache, FileCacheConfig, CacheData, FileError, FileSystem, CacheFormat, cache_file_path,
  ensure_cache_dir, data_of, is_expired, get, set, with_cache_defaults,
}
use aqua_scan_gate.Aqua.FileCaching.Storing.{
  IsFileSystem, IsStored, verdict, is_expired-eq-verdict, set-IsStored,
}

record Disk : Type 0 where
  files : Text → Option Text
  time : ℕ

abbrev put : Text → Option Text → Disk → Disk
put p c w = record w { files = λ q. if q == p then c else w.files q }

abbrev tmp_name : Text
tmp_name = codes "/tmp/registries-1.tmp"

abbrev disk : FileSystem Disk
disk = record {
  read_file = λ p w. (elim (w.files p) [ none ↦ err FileError.not_exist | some c ↦ ok c ], w);
  mkdir_all = λ d mode w. (none, w);
  create_temp = λ d pattern w. (ok tmp_name, put tmp_name (some []) w);
  write =
      λ f bytes w. (none, put f (elim (w.files f) [ none ↦ none | some c ↦ some (c ++ bytes) ]) w);
  close = λ f w. (none, w);
  chmod = λ f mode w. (none, w);
  rename = λ a b w. (none, put b (w.files a) w);
  remove = λ f w. (none, put f none w);
  now = λ w. w.time;
  join = λ a b. a ++ b'/' ∷ b;
}

abbrev content : Text → Disk → Option Text
content p w = w.files p

put_same : (p : Text) (c : Option Text) (w : Disk) → content p (put p c w) ≡ c
put_same p c w = ground (arith, eq_iff p p)

put_other : (p q : Text) (c : Option Text) (w : Disk) → q ≢ p → content q (put p c w) ≡ content q w
put_other p q c w h = ground (arith, eq_iff q p)

disk-IsFileSystem : IsFileSystem disk content
unfolding has_suffix
disk-IsFileSystem = record {
  read_ok = λ p w c h. elim (Option-cases (w.files p)) [
    | inl n ↦ let no : err FileError.not_exist ≡ ok c = rw n at h in cc
    | inr (d, e) ↦ let yep : ok d ≡ ok c = rw e at h in rw e (let same : d ≡ c = cc in rw same refl)
  ];
  read_missing = λ p w h. elim (Option-cases (w.files p)) [
    | inl n ↦ n
    | inr (d, e) ↦ let no : ok d ≡ err FileError.not_exist = rw e at h in cc
  ];
  mkdir_keeps = λ p d mode w. refl;
  create_named = λ d n w h. (let same : tmp_name ≡ n = cc in rw (← same) refl);
  create_empty = λ d pattern n w h.
      (let same : tmp_name ≡ n = cc in rw (← same) (put_same tmp_name (some []) w));
  create_keeps = λ d pattern p w h. put_other tmp_name p _ w (λ e. h (ap (λ t. ok t) (sym e)));
  write_ok = λ f bytes c w h k. put_same f _ w ∙ rw k refl;
  write_keeps = λ f bytes p w h. put_other f p _ w h;
  close_keeps = λ f p w. refl;
  chmod_keeps = λ f mode p w. refl;
  rename_ok = λ a b w h. put_same b _ w;
  rename_err = λ a b w e p h. (let no : none ≡ some e = h in cc);
  remove_keeps = λ f p w h. put_other f p _ w h;
}

disk_serves : (p : Text) (w : Disk) (e : Text) → (disk.read_file p w).0 ≢ err (FileError.failed e)
disk_serves p w e h = elim (Option-cases (w.files p)) [
  | inl n ↦ let no : err FileError.not_exist ≡ err (FileError.failed e) = rw n at h in cc
  | inr (c, f) ↦ let no : ok c ≡ err (FileError.failed e) = rw f at h in cc
]

-- One registry with no prefixes, and a version of one byte.
abbrev pack_one : Text → List Text → ℕ → Text → Result Text Text
pack_one name [] t (c ∷ []) = ok (c ∷ t ∷ name)
pack_one name [] t [] = err (codes "version")
pack_one name [] t (c ∷ d ∷ v) = err (codes "version")
pack_one name (x ∷ xs) t v = err (codes "prefixes")

abbrev pack : List Registry → ℕ → Text → Result Text Text
pack (r ∷ []) t v = pack_one r.name r.prefixes t v
pack [] t v = err (codes "registries")
pack (r ∷ q ∷ rs) t v = err (codes "registries")

abbrev unpack : Text → Result Text CacheData
unpack (c ∷ t ∷ name) = ok (record {
  registries = record { name = name; prefixes = [] } ∷ [];
  fetched_at = t;
  version = c ∷ [];
})
unpack [] = err []
unpack (c ∷ []) = err []

abbrev format : CacheFormat
format = record { encode = λ d. pack d.registries d.fetched_at d.version; decode = unpack }

unpack-pack_one :
    (name : Text) (xs : List Text) (t : ℕ) (v bytes : Text)
    → pack_one name xs t v ≡ ok bytes
    → unpack bytes
      ≡ ok (record {
        registries = record { name = name; prefixes = xs } ∷ [];
        fetched_at = t;
        version = v;
      })
unpack-pack_one name [] t (c ∷ []) bytes h =
    let same : c ∷ t ∷ name ≡ bytes = cc in rw (← same) refl
unpack-pack_one name [] t [] bytes h = cc
unpack-pack_one name [] t (c ∷ d ∷ v) bytes h = cc
unpack-pack_one name (x ∷ xs) t v bytes h = cc

unpack-pack :
    (rs : List Registry) (t : ℕ) (v bytes : Text)
    → pack rs t v ≡ ok bytes
    → unpack bytes ≡ ok (record { registries = rs; fetched_at = t; version = v })
unpack-pack (r ∷ []) t v bytes h = unpack-pack_one r.name r.prefixes t v bytes h
unpack-pack [] t v bytes h = cc
unpack-pack (r ∷ q ∷ rs) t v bytes h = cc

format_decodes :
    (d : CacheData) (bytes : Text) → format.encode d ≡ ok bytes → format.decode bytes ≡ ok d
format_decodes d bytes h = unpack-pack d.registries d.fetched_at d.version bytes h

abbrev settings : FileCacheConfig
settings =
    with_cache_defaults (record { cache_dir = []; cache_file = []; ttl = 60; enabled = true })

abbrev hub : List Registry
hub = record { name = codes "hub"; prefixes = [] } ∷ []

abbrev empty_disk : Disk
empty_disk = record { files = λ p. none; time = 100 }

is_expired_test :
    is_expired disk format settings empty_disk
    ≡ (verdict (get disk format settings empty_disk).0, (get disk format settings empty_disk).1)
is_expired_test = is_expired-eq-verdict disk format settings empty_disk

set-IsStored_example :
    let made = (ensure_cache_dir disk format settings empty_disk).1 in
    let r = set disk format settings hub empty_disk in
    let path = cache_file_path disk format settings in
    IsStored
      (format.encode (data_of disk format settings hub made))
      (content path empty_disk)
      r.0
      (content path r.1)
unfolding with_cache_defaults has_suffix cache_file_path
set-IsStored_example =
    set-IsStored disk format settings content disk-IsFileSystem refl hub empty_disk refl

abbrev later : Disk
later = record (set disk format settings hub empty_disk).1 { time = 130 }

-- An hour later the file would be stale; after thirty seconds it is not.
get_after_set_test :
    (get disk format settings later).0 ≡ ok (some (record { registries = hub; fetched_at = 100 }))
unfolding get set with_cache_defaults ◌==◌
get_after_set_test = refl

file_cache-IsStore_example :
    IsStore
      (file_cache disk format settings)
      (put_there disk format settings)
      (Holds disk format settings content)
      (Serves disk format settings)
unfolding with_cache_defaults has_suffix cache_file_path
file_cache-IsStore_example =
    file_cache-IsStore disk format settings content disk-IsFileSystem refl refl format_decodes

store :
    IsStore
      (file_cache disk format settings)
      (put_there disk format settings)
      (Holds disk format settings content)
      (Serves disk format settings)
unfolding with_cache_defaults has_suffix cache_file_path
store = file_cache-IsStore disk format settings content disk-IsFileSystem refl refl format_decodes

abbrev network : Network Disk
network = record {
  send = λ req w. (err (codes "offline"), w);
  now = λ w. w.time;
  request_error = λ method url. none;
}

abbrev formats : Formats
formats = record {
  join_path = λ base parts. ok base;
  parse_reference = λ t. err t;
  hmac = λ message secret. secret;
  token_body = λ validity methods. ok [];
  read_token = λ body. ok body;
  scan_body = λ registry image. ok image;
  read_registries = λ resp. ok [];
}

abbrev client_settings : Config
client_settings = record {
  base_url = codes "https://aqua";
  auth = record { api_key = []; hmac_secret = []; auth_url = []; token_validity = 240 };
  registry = [];
  registry_mirrors = [];
  cache_ttl = 60;
}

abbrev first_client : ClientState Disk
first_client = record { token = []; token_exp_at = 0; cache = none; sent = []; world = empty_disk }

abbrev second_client : ClientState Disk
second_client = record first_client { world = later }

get_registries-store_registries_example :
    let files = file_cache disk format settings in
    ((get_registries network files formats client_settings second_client).0 ≡ ok hub)
    × ((get_registries network files formats client_settings second_client).1.sent ≡ [])
unfolding set with_cache_defaults store_registries
get_registries-store_registries_example =
    get_registries-store_registries network (file_cache disk format settings) formats
      client_settings (put_there disk format settings) (Holds disk format settings content)
      (Serves disk format settings) store hub first_client second_client refl (λ held. held)
      (disk_serves (cache_file_path disk format settings) later, omega arith) refl

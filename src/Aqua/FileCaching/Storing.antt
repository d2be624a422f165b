-- ===== src/Aqua/FileCaching/Storing.antt =====
-- What the methods of FileCache in pkg/aqua/filecache.go keep of each other.
use aqua_scan_gate.Common.{
  ℕ, Text, codes, List, [], ◌++◌, Bool, true, false, Option, none, some, Result, ok, err,
  has_suffix, ◌≡◌, ◌≢◌, refl, sym, ap, ◌∙◌, inl, inr, Option-cases, Result-cases, Bool-cases,
}
use mathlib.Core.Bool.{true≢false}
use aqua_scan_gate.Aqua.Registries.{Registry}
use aqua_scan_gate.Aqua.Http.{RegistryCache}
use aqua_scan_gate.Aqua.FileCaching.{
  FileCacheConfig, FileError, FileSystem, CacheFormat, is_past, in_context, cache_file_path,
  unless_past, get_decoded, get, discard, rename_temp, chmod_temp, close_temp, write_temp,
  after_create, create_file, data_of, set_encoded, ensure_cache_dir, after_ensure, set,
  expired_decoded, is_expired,
}

-- What is known of a file system, with the content of each regular file: a call changes no file but
-- the one that it names, a rename that fails changes nothing, and one that succeeds moves the whole
-- content. The temporary files are new ones, and their names have the suffix of the pattern.
pub record IsFileSystem {W : Type 0} (fs : FileSystem W) (content : Text → W → Option Text)
    : Type 0 where
  pub read_ok : (p : Text) (w : W) (c : Text) → (fs.read_file p w).0 ≡ ok c → content p w ≡ some c
  pub read_missing :
      (p : Text) (w : W) → (fs.read_file p w).0 ≡ err FileError.not_exist → content p w ≡ none
  pub mkdir_keeps :
      (p d : Text) (mode : ℕ) (w : W) → content p (fs.mkdir_all d mode w).1 ≡ content p w
  pub create_named :
      (d n : Text) (w : W)
      → (fs.create_temp d (codes "registries-*.tmp") w).0 ≡ ok n
      → has_suffix n (codes ".tmp") ≡ true
  pub create_empty :
      (d pattern n : Text) (w : W)
      → (fs.create_temp d pattern w).0 ≡ ok n
      → content n (fs.create_temp d pattern w).1 ≡ some []
  pub create_keeps :
      (d pattern p : Text) (w : W)
      → (fs.create_temp d pattern w).0 ≢ ok p
      → content p (fs.create_temp d pattern w).1 ≡ content p w
  pub write_ok :
      (f bytes c : Text) (w : W)
      → (fs.write f bytes w).0 ≡ none
      → content f w ≡ some c
      → content f (fs.write f bytes w).1 ≡ some (c ++ bytes)
  pub write_keeps :
      (f bytes p : Text) (w : W) → p ≢ f → content p (fs.write f bytes w).1 ≡ content p w
  pub close_keeps : (f p : Text) (w : W) → content p (fs.close f w).1 ≡ content p w
  pub chmod_keeps :
      (f : Text) (mode : ℕ) (p : Text) (w : W) → content p (fs.chmod f mode w).1 ≡ content p w
  pub rename_ok :
      (a b : Text) (w : W)
      → (fs.rename a b w).0 ≡ none
      → content b (fs.rename a b w).1 ≡ content a w
  pub rename_err :
      (a b : Text) (w : W) (e : Text) (p : Text)
      → (fs.rename a b w).0 ≡ some e
      → content p (fs.rename a b w).1 ≡ content p w
  pub remove_keeps : (f p : Text) (w : W) → p ≢ f → content p (fs.remove f w).1 ≡ content p w

-- The content of the cache file after a call that is to put bytes there, by the error of the call.
abbrev pub Replaced : Text → Option Text → Option Text → Option Text → Type 0
Replaced bytes before none after = after ≡ some bytes
Replaced bytes before (some e) after = after ≡ before

-- The same of a call that encodes the bytes first.
abbrev pub IsStored : Result Text Text → Option Text → Option Text → Option Text → Type 0
IsStored encoded before none after = (bytes : Text) × (encoded ≡ ok bytes) × (after ≡ some bytes)
IsStored encoded before (some e) after = after ≡ before

Replaced-IsStored :
    (encoded : Result Text Text) (bytes : Text) (before e after : Option Text)
    → encoded ≡ ok bytes
    → Replaced bytes before e after
    → IsStored encoded before e after
Replaced-IsStored encoded bytes before none after f h = (bytes, f, h)
Replaced-IsStored encoded bytes before (some e) after f h = h

suffix_differs :
    (p q : Text) → has_suffix q (codes ".tmp") ≡ true → has_suffix p (codes ".tmp") ≡ false → p ≢ q
suffix_differs p q h k e = true≢false (sym h ∙ ap (λ t. has_suffix t (codes ".tmp")) (sym e) ∙ k)

-- What `get` tells of the question whether the cache has expired.
abbrev pub verdict : Result Text (Option RegistryCache) → Bool × Option Text
verdict (ok (some c)) = (false, none)
verdict (ok none) = (true, none)
verdict (err e) = (true, some e)

module _ {W : Type 0} (fs : FileSystem W) (format : CacheFormat) (config : FileCacheConfig) where
  abbrev pub path : Text
  path = cache_file_path fs format config

  expired_decoded-verdict :
      (r : Result FileError Text) (w : W)
      → expired_decoded fs format config r w ≡ verdict (get_decoded fs format config r w)
  unfolding expired_decoded get_decoded unless_past in_context
  expired_decoded-verdict (err FileError.not_exist) w = refl
  expired_decoded-verdict (err (FileError.failed e)) w = refl
  expired_decoded-verdict (ok bytes) w = elim (Result-cases (format.decode bytes)) [
    | inr (e, f) ↦ rw (expired_decoded, get_decoded, f) refl
    | inl (d, f) ↦ elim (Bool-cases (is_past (fs.now w) config.ttl d)) [
      | inl y ↦ rw (expired_decoded, get_decoded, f, y) refl
      | inr n ↦ rw (expired_decoded, get_decoded, f, n) refl
    ]
  ]

  -- In every world, `IsExpired` answers what `Get` shows: not expired where `Get` finds registries,
  -- expired where it finds none, and expired with the error of `Get` where that fails. The two leave
  -- the same world.
  pub is_expired-eq-verdict :
      (w : W)
      → is_expired fs format config w
        ≡ (verdict (get fs format config w).0, (get fs format config w).1)
  unfolding is_expired get
  is_expired-eq-verdict w = elim (Bool-cases config.enabled) [
    | inl y ↦ rw (y, expired_decoded-verdict) refl
    | inr n ↦ rw n refl
  ]

  module _ (content : Text → W → Option Text) (files : IsFileSystem fs content) where
    discard-path :
        (tmp context e : Text) (w : W)
        → path ≢ tmp
        → content path (discard fs format config tmp context e w).1 ≡ content path w
    unfolding discard
    discard-path tmp context e w h = files.remove_keeps tmp path w h

    rename_temp-Replaced :
        (bytes tmp : Text) (w : W)
        → path ≢ tmp
        → content tmp w ≡ some bytes
        → let r = rename_temp fs format config tmp w in
          Replaced bytes (content path w) r.0 (content path r.1)
    unfolding rename_temp
    rename_temp-Replaced bytes tmp w h c = elim (Option-cases (fs.rename tmp path w).0) [
      | inl n ↦ rw (rename_temp, n) (files.rename_ok tmp path w n ∙ c)
      | inr (e, f) ↦
          rw (rename_temp, f)
            (discard-path tmp (codes "renaming cache file") e _ h
              ∙ files.rename_err tmp path w e path f)
    ]

    chmod_temp-Replaced :
        (bytes tmp : Text) (w : W)
        → path ≢ tmp
        → content tmp w ≡ some bytes
        → let r = chmod_temp fs format config tmp w in
          Replaced bytes (content path w) r.0 (content path r.1)
    unfolding chmod_temp
    chmod_temp-Replaced bytes tmp w h c =
        let keeps = λ (p : Text). files.chmod_keeps tmp 384 p w in
        elim (Option-cases (fs.chmod tmp 384 w).0) [
          | inl n ↦
              rw (chmod_temp, n, ← keeps path) (rename_temp-Replaced bytes tmp _ h (keeps tmp ∙ c))
          | inr (e, f) ↦
              rw (chmod_temp, f)
                (discard-path tmp (codes "setting cache file permissions") e _ h ∙ keeps path)
        ]

    close_temp-Replaced :
        (bytes tmp : Text) (w : W)
        → path ≢ tmp
        → content tmp w ≡ some bytes
        → let r = close_temp fs format config tmp w in
          Replaced bytes (content path w) r.0 (content path r.1)
    unfolding close_temp
    close_temp-Replaced bytes tmp w h c =
        let keeps = λ (p : Text). files.close_keeps tmp p w in
        elim (Option-cases (fs.close tmp w).0) [
          | inl n ↦
              rw (close_temp, n, ← keeps path) (chmod_temp-Replaced bytes tmp _ h (keeps tmp ∙ c))
          | inr (e, f) ↦
              rw (close_temp, f)
                (discard-path tmp (codes "closing temporary cache file") e _ h ∙ keeps path)
        ]

    write_temp-Replaced :
        (bytes tmp : Text) (w : W)
        → path ≢ tmp
        → content tmp w ≡ some []
        → let r = write_temp fs format config bytes tmp w in
          Replaced bytes (content path w) r.0 (content path r.1)
    unfolding write_temp
    write_temp-Replaced bytes tmp w h c =
        let keeps = files.write_keeps tmp bytes path w h in
        elim (Option-cases (fs.write tmp bytes w).0) [
          | inl n ↦
              rw (write_temp, n, ← keeps)
                (close_temp-Replaced bytes tmp _ h (files.write_ok tmp bytes [] w n c))
          | inr (e, f) ↦
              rw (write_temp, f)
                (discard-path tmp (codes "writing temporary cache file") e _ h
                  ∙ files.close_keeps tmp path _
                  ∙ keeps)
        ]

    module _ (named : has_suffix path (codes ".tmp") ≡ false) where
      create_file-Replaced :
          (bytes : Text) (w : W)
          → let r = create_file fs format config bytes w in
            Replaced bytes (content path w) r.0 (content path r.1)
      unfolding create_file after_create in_context
      create_file-Replaced bytes w =
          let pattern = codes "registries-*.tmp" in
          let r = fs.create_temp config.cache_dir pattern w in
          let other : (tmp : Text) → r.0 ≡ ok tmp → path ≢ tmp =
            λ tmp f. suffix_differs path tmp (files.create_named config.cache_dir tmp w f) named in
          let keeps : r.0 ≢ ok path → content path r.1 ≡ content path w =
            files.create_keeps config.cache_dir pattern path w in
          elim (Result-cases r.0) [
            | inl (tmp, f) ↦
                rw (create_file, f, ← keeps (λ g. other path g refl))
                  (write_temp-Replaced bytes tmp r.1 (other tmp f)
                    (files.create_empty config.cache_dir pattern tmp w f))
            | inr (e, f) ↦ rw (create_file, f) (keeps (λ g. other path g refl))
          ]

      -- What `Set` leaves in the cache file when the cache is enabled and the path of the file does not
      -- end in ".tmp": without an error the encoding of the registries, with the time at which the
      -- directory was there; with an error whatever the file held before. It is never half written.
      pub set-IsStored :
          (registries : List Registry) (w : W)
          → config.enabled ≡ true
          → let made = (ensure_cache_dir fs format config w).1 in
            let r = set fs format config registries w in
            IsStored
              (format.encode (data_of fs format config registries made))
              (content path w)
              r.0
              (content path r.1)
      unfolding set ensure_cache_dir after_ensure set_encoded in_context
      set-IsStored registries w h =
          let made = (fs.mkdir_all config.cache_dir 448 w).1 in
          let encoded = format.encode (data_of fs format config registries made) in
          let keeps = files.mkdir_keeps path config.cache_dir 448 w in
          elim (Option-cases (fs.mkdir_all config.cache_dir 448 w).0) [
            | inr (e, f) ↦ rw (set, h, f) keeps
            | inl n ↦ elim (Result-cases encoded) [
              | inl (bytes, f) ↦
                  rw (set, h, n, f, ← keeps)
                    (Replaced-IsStored (ok bytes) bytes _ _ _ refl
                      (create_file-Replaced bytes made))
              | inr (e, f) ↦ rw (set, h, n, f) keeps
            ]
          ]

-- ===== src/Aqua/Restart.antt =====
-- The Aqua client of pkg/aqua/client.go on the file cache of pkg/aqua/filecache.go: what a
-- restarted process finds.
use aqua_scan_gate.Common.{◌∙◌, List, none, some, ok, ◌≡◌, refl, ap}
use aqua_scan_gate.Aqua.Registries.{Registry}
use aqua_scan_gate.Aqua.Http.{Network, Formats, RegistryCache, ClientState}
use aqua_scan_gate.Aqua.Lookup.{
  Config, FileCache, store_registries, after_file, read_file_cache, from_cache, get_registries,
}
use aqua_scan_gate.Aqua.FileCaching.Store.{IsStore}

module _ {W : Type 0} (net : Network W) (files : FileCache W) (fmt : Formats)
    (config : Config) where
  get_registries_hit :
      (t : ClientState W) (c : RegistryCache)
      → t.cache ≡ none
      → (files.get t.world).0 ≡ ok (some c)
      → ((get_registries net files fmt config t).0 ≡ ok c.registries)
        × ((get_registries net files fmt config t).1.sent ≡ t.sent)
  unfolding get_registries from_cache read_file_cache after_file
  get_registries_hit t c empty hit =
      let found : get_registries net files fmt config t
          ≡ (ok c.registries, record t { cache = some c; world = (files.get t.world).1 }) =
        rw (get_registries, empty, read_file_cache, hit) refl in
      (ap (λ r. r.0) found, ap (λ r. r.1.sent) found)

  -- Let the file cache fulfil the contract of a store, and let a client have put there the registries
  -- that Aqua gave it, without an error. A client that starts later with an empty memory, in a world in
  -- which the store still holds and serves what was put there, has the same registries, and sends no
  -- request for them.
  pub get_registries-store_registries :
      (put : List Registry → W → RegistryCache) (Holds Serves : RegistryCache → W → Type 0)
      → IsStore files put Holds Serves
      → (registries : List Registry) (s t : ClientState W) → (files.set registries s.world).0 ≡ none
      → let left = (store_registries net files fmt config registries s).1 in
        let c = put registries s.world in
        (Holds c left.world → Holds c t.world)
        → Serves c t.world
        → t.cache ≡ none
        → ((get_registries net files fmt config t).0 ≡ ok registries)
          × ((get_registries net files fmt config t).1.sent ≡ t.sent)
  unfolding store_registries
  get_registries-store_registries put Holds Serves store registries s t stored still serves empty =
      let c = put registries s.world in
      let held = still (store.stored registries s.world stored) in
      let (answer, quiet) = get_registries_hit t c empty (store.served c t.world held serves) in
      (answer ∙ ap (λ r. ok r) (store.put_whole registries s.world), quiet)

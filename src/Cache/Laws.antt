-- ===== src/Cache/Laws.antt =====
-- What the operations of the cache do to what a later `get` finds.
use library_api.Prelude.{
  String, ◌≡◌, refl, none, some, List, [], ◌∷◌, arith, ◌==◌, if◌then◌else◌, Option-cases, inl, inr,
  ℕ,
}
use library_api.Responses.{Document}
use library_api.External.{External, listed}
use library_api.Cache.{cached, delete_all}

module _ ⦃ext : External⦄ where
  -- After a `set`, a `get` of the key returns the document, and every other key is as it was.
  pub cached-set :
      (s : ext.Store) (k j : String) (d : Document) (ttl : ℕ)
      → cached (ext.set s k (ext.dumps d) ttl) j ≡ (if k == j then some d else cached s j)
  unfolding cached
  cached-set s k j d ttl =
      ground (arith, ext.get-set s k (ext.dumps d) ttl j, ext.loads-dumps d, ext.dumps_nonempty d)

  -- After a `delete`, a `get` of the key finds nothing, and every other key is as it was.
  pub cached-delete :
      (s : ext.Store) (k j : String)
      → cached (ext.delete s k) j ≡ (if k == j then none else cached s j)
  unfolding cached
  cached-delete s k j = ground (arith, ext.get-delete s k j)

  get-delete_all :
      (keys : List String) (s : ext.Store) (j : String)
      → ext.get (delete_all keys s) j ≡ (if listed j keys then none else ext.get s j)
  unfolding delete_all
  get-delete_all [] s j = refl
  get-delete_all (k ∷ keys) s j =
      ground (arith, get-delete_all keys (ext.delete s k) j, ext.get-delete s k j)

  get-delete_pattern :
      (s : ext.Store) (p j : String)
      → ext.get (delete_all (ext.scan_iter s p) s) j
        ≡ (if ext.matches p j then none else ext.get s j)
  get-delete_pattern s p j = elim (Option-cases (ext.get s j)) [
    | inl absent ↦ ground (arith, get-delete_all (ext.scan_iter s p) s j)
    | inr (v, present) ↦ ground (
      arith,
      get-delete_all (ext.scan_iter s p) s j,
      ext.scan_complete s p j v present,
      ext.scan_sound s p j,
    )
  ]

  -- After `delete_pattern` a `get` finds nothing under the keys that match the pattern, and under
  -- every other key what it found before.
  pub cached-delete_pattern :
      (s : ext.Store) (p j : String)
      → cached (delete_all (ext.scan_iter s p) s) j ≡ (if ext.matches p j then none else cached s j)
  unfolding cached
  cached-delete_pattern s p j = ground (arith, get-delete_pattern s p j)

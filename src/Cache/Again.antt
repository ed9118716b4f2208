-- ===== src/Cache/Again.antt =====
-- A request that is repeated while its document is cached.
use library_api.Prelude.{String, ℕ, ◌≡◌, none, some, arith, Option-cases, inl, inr, eq_refl, refl}
use library_api.Responses.{Document}
use library_api.Exec.{Exec, Result, ok, err}
use library_api.External.{External}
use library_api.World.{State}
use library_api.Cache.{cached, read_through}
use library_api.Cache.Laws.{cached-set}

module _ ⦃ext : External⦄ where
  read_through-hit :
      (key : String) (expire : ℕ) (load : Exec State Document) (w : State) (d : Document)
      → cached w.cache key ≡ some d
      → read_through key expire load w ≡ (ok d, w)
  unfolding read_through
  read_through-hit key expire load w d hit = ground (arith, hit)

  read_through-miss :
      (key : String) (expire : ℕ) (load : Exec State Document) (w : State) (d : Document)
      → cached w.cache key ≡ none
      → (read_through key expire load w).0 ≡ ok d
      → cached (read_through key expire load w).1.cache key ≡ some d
  unfolding read_through
  read_through-miss key expire load w d miss h = go (load w) refl
    where
      go :
          (r : Result Document × State)
          → load w ≡ r
          → cached (read_through key expire load w).1.cache key ≡ some d
      go (ok b, v) loaded =
          ground (arith, miss, loaded, h, cached-set v.cache key key b expire, eq_refl key)
      go (err e, v) loaded = ground (arith, miss, loaded, h)

  -- What a read-through has returned, the next one with the same key returns too, whatever it would
  -- load.
  pub read_through-read_through :
      (key : String) (expire : ℕ) (load load' : Exec State Document) (w : State) (d : Document)
      → (read_through key expire load w).0 ≡ ok d
      → (read_through key expire load' (read_through key expire load w).1).0 ≡ ok d
  read_through-read_through key expire load load' w d h = elim (Option-cases (cached w.cache key)) [
    | inl miss ↦ ground (
      arith,
      read_through-hit key expire load' (read_through key expire load w).1 d
          (read_through-miss key expire load w d miss h),
    )
    | inr (b, hit) ↦
        let first = read_through-hit key expire load w b hit in
        let same : b ≡ d = ground (arith, first, h) in
        rw first (ground (arith, same, read_through-hit key expire load' w b hit))
  ]

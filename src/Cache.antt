-- ===== src/Cache.antt =====
-- app/cache: `CacheService`.
pub mod Laws
pub mod Again
pub mod Keys
use library_api.Prelude.{ℕ, String, Bool, Option, none, some, List, [], ◌∷◌, ◌==◌, if◌then◌else◌}
use library_api.Responses.{Document}
use library_api.Exec.{Exec, ok, pure, modify, ◌>>=◌, ◌>>◌}
use library_api.External.{External}
use library_api.World.{World, State}

module _ ⦃ext : External⦄ where
  unfoldable pub cached : ext.Store → String → Option Document
  cached s key = elim (ext.get s key) [
    | none ↦ none
    | some text ↦ if ext.is_empty text then none else some (ext.loads text)
  ]

  -- `get`
  abbrev pub get : String → State → Option Document × State
  get key w = (cached w.cache key, w)

  -- `set`
  abbrev pub set : String → Document → ℕ → State → State
  set key v expire w = record w { cache = ext.set w.cache key (ext.dumps v) expire }

  -- `delete`
  abbrev pub delete : String → State → State
  delete key w = record w { cache = ext.delete w.cache key }

  unfoldable pub delete_all : List String → ext.Store → ext.Store
  delete_all [] s = s
  delete_all (key ∷ keys) s = delete_all keys (ext.delete s key)

  -- `delete_pattern`
  abbrev pub delete_pattern : String → State → State
  delete_pattern pattern w = record w { cache = delete_all (ext.scan_iter w.cache pattern) w.cache }

  -- The document on a hit; on a miss `load` runs, and its document is stored under the key.
  unfoldable pub read_through : String → ℕ → Exec State Document → Exec State Document
  read_through key expire load w = elim (cached w.cache key) [
    | some document ↦ (ok document, w)
    | none ↦ (do document ← load; modify (set key document expire); pure document) w
  ]

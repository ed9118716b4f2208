-- ===== src/Tests/Redis.antt =====
-- A Redis server in memory, with the laws that the cache relies on.
use Prim.Native.Char.{code}
use Prim.Native.String.{◌∷◌ as ◌then_char◌, ◌++◌}
use Prim.Native.String.append
use library_api.Prelude.{
  ℕ, String, ◌≡◌, refl, Bool, true, false, not, ◌&&◌, ◌||◌, Option, none, some, List, [], ◌∷◌,
  arith, ◌==◌, eq_iff, eqb, if◌then◌else◌, eq_refl, Bool-cases, inl, inr,
}
use library_api.External.{Redis, listed}
use library_api.Responses.{Document}

abbrev pub Store : Type 0
Store = List (String × Document)

abbrev pub get : Store → String → Option Document
get [] k = none
get ((j, v) ∷ s) k = if j == k then some v else get s k

abbrev pub delete : Store → String → Store
delete [] k = []
delete ((j, v) ∷ s) k = let rest = delete s k in if j == k then rest else (j, v) ∷ rest

abbrev pub is_star : ℕ → Bool
is_star c = eqb c 42

-- A pattern in which `*` ends the comparison.
abbrev pub matches : String → String → Bool
matches String.[] String.[] = true
matches String.[] (String.◌∷◌ d k) = false
matches (String.◌∷◌ c p) String.[] = is_star (code c)
matches (String.◌∷◌ c p) (String.◌∷◌ d k) =
    is_star (code c) || (eqb (code c) (code d) && matches p k)

abbrev pub is_plain : String → Bool
is_plain String.[] = true
is_plain (String.◌∷◌ c p) = not (is_star (code c)) && is_plain p

abbrev pub scan_iter : Store → String → List String
scan_iter [] p = []
scan_iter ((j, v) ∷ s) p = let rest = scan_iter s p in if matches p j then j ∷ rest else rest

pub get-delete :
    (s : Store) (k j : String) → get (delete s k) j ≡ (if k == j then none else get s j)
get-delete [] k j = ground arith
get-delete ((i, v) ∷ s) k j = ground (arith, eq_iff i k, eq_iff i j, eq_iff k j, get-delete s k j)

-- The head of the store settles the question, or the rest does.
pub scan_complete :
    (s : Store) (p k : String) (v : Document)
    → get s k ≡ some v
    → matches p k ≡ true
    → listed k (scan_iter s p) ≡ true
scan_complete [] p k v h m = cc
scan_complete ((i, u) ∷ s) p k v h m = elim (Bool-cases (i == k)) [
  | inl same ↦ let e : i ≡ k = (eq_iff i k).0 same in rw (e, m, eq_refl) refl
  | inr other ↦ ground (arith, scan_complete s p k v (ground arith) m)
]

pub scan_sound : (s : Store) (p k : String) → listed k (scan_iter s p) ≡ true → matches p k ≡ true
scan_sound [] p k h = cc
scan_sound ((i, u) ∷ s) p k h = elim (Bool-cases (matches p i)) [
  | inr skipped ↦ scan_sound s p k (rw skipped at h)
  | inl taken ↦ elim (Bool-cases (i == k)) [
    | inl same ↦ rw (← (eq_iff i k).0 same) taken
    | inr other ↦ scan_sound s p k (ground arith)
  ]
]

pub get-set :
    (s : Store) (k : String) (v : Document) (ttl : ℕ) (j : String)
    → get ((k, v) ∷ s) j ≡ (if k == j then some v else get s j)
get-set s k v ttl j = refl

pub matches-star : (p rest : String) → is_plain p ≡ true → matches (p ++ "*") (p ++ rest) ≡ true
matches-star String.[] String.[] h = refl
matches-star String.[] (String.◌∷◌ d k) h = rw (append.nil (d then_char k)) refl
matches-star (String.◌∷◌ c p) rest h =
    rw (append.cons c p rest, append.cons c p "*") (ground (arith, matches-star p rest))

abbrev pub memory : Redis Document
memory = record {
  Store = Store;
  get = get;
  set = λ s k v ttl. (k, v) ∷ s;
  delete = delete;
  scan_iter = scan_iter;
  matches = matches;
  is_plain = is_plain;
  get-set = get-set;
  get-delete = get-delete;
  scan_complete = scan_complete;
  scan_sound = scan_sound;
  matches-star = matches-star;
}

-- ===== src/Users/Pages.antt =====
-- The pages of the list of users, put together.
use Prim.Native.Nat.add
use library_api.Prelude.{
  ℕ, zero, suc, ◌+◌, ◌*◌, ◌-◌, ◌≤◌, ◌≡◌, refl, sym, ap, List, [], ◌∷◌, ◌++◌, arith, take, drop,
  length, select, count, Bool,
}
use library_api.Models.User.{User}
use library_api.External.{External}
use library_api.World.{State}
use library_api.Users.Repository as Repository
use library_api.Users.Repository.{is_active, list_users}
use library_api.Users.Service.{list_users_paginated}

take-[] : (n : ℕ) → take {A = User} n [] ≡ []
take-[] zero = refl
take-[] (suc n) = refl

drop-[] : (n : ℕ) → drop {A = User} n [] ≡ []
drop-[] zero = refl
drop-[] (suc n) = refl

take-add : (n m : ℕ) (l : List User) → take n l ++ take m (drop n l) ≡ take (n + m) l
take-add zero m l = ground arith
take-add (suc n) m [] = ground (arith, take-[] m, take-[] (suc n + m))
take-add (suc n) m (x ∷ l) = rw add.suc (ap (λ r. x ∷ r) (take-add n m l))

drop-add : (n m : ℕ) (l : List User) → drop m (drop n l) ≡ drop (n + m) l
drop-add zero m l = ground arith
drop-add (suc n) m [] = ground (arith, drop-[] m, drop-[] (suc n + m))
drop-add (suc n) m (x ∷ l) = rw add.suc (drop-add n m l)

take-all : (n : ℕ) (l : List User) → length l ≤ n → take n l ≡ l
take-all zero [] h = refl
take-all zero (x ∷ l) h = ground arith
take-all (suc n) [] h = refl
take-all (suc n) (x ∷ l) h = ground (arith, take-all n l)

length-select : (p : User → Bool) (l : List User) → length (select p l) ≡ count p l
length-select p [] = refl
length-select p (x ∷ l) = ground (arith, length-select p l)

module _ ⦃ext : External⦄ where
  -- What a client has that asks for `k` pages from a page on, and puts them together.
  unfoldable pub collect : ℕ → ℕ → ℕ → State → List User
  unfolding list_users_paginated
  collect zero page size w = []
  collect (suc k) page size w =
      (list_users_paginated page size w).items ++ collect k (page + 1) size w

  collect_lem :
      (k before size : ℕ) (w : State)
      → collect k (before + 1) size w ≡ take (k * size) (drop (before * size) (list_users w))
  unfolding collect Repository.list_users_paginated
  collect_lem zero before size w = ground arith
  collect_lem (suc k) before size w =
      let l = drop (before * size) (list_users w) in
      let first : (before + 1 - 1) * size ≡ before * size = ground arith in
      let next : (before + 1) * size ≡ before * size + size = ground arith in
      let sum : suc k * size ≡ size + k * size = ground arith in
      rw
        (
          first,
          collect_lem k (before + 1) size w,
          next,
          sym (drop-add (before * size) size (list_users w)),
          sum,
        )
        (take-add size (k * size) l)

  -- The pages of the list of users, from the first on and as many as hold the total that each page
  -- states, make up the whole list: no user is left out and none comes twice.
  pub collect-list_users :
      (k size : ℕ) (w : State)
      → (list_users_paginated 1 size w).total ≤ k * size
      → collect k 1 size w ≡ list_users w
  unfolding list_users_paginated Repository.list_users_paginated
  collect-list_users k size w h =
      let all : length (list_users w) ≤ k * size =
        ground (arith, length-select is_active w.users) in
      let start : 0 * size ≡ 0 = ground arith in
      rw (collect_lem k 0 size w, start) (take-all (k * size) (list_users w) all)

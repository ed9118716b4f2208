-- ===== src/Effects.antt =====
-- How a handler ends: the two ways in which a statement about a run is made.
use library_api.Prelude.{◌≤◌, ◌≡◌, ap}
use library_api.Errors.{Error}
use library_api.Exec.{Exec, Result, ok, err, ◌>>=◌}
use library_api.External.{External}
use library_api.World.{State}

-- What holds of the result of a handler, by how it ends.
abbrev pub Ends : {S A : Type 0} → (A → S → Type 0) → (S → Type 0) → Result A × S → Type 0
Ends P Q (ok a, s) = P a s
Ends P Q (err e, s) = Q s

-- The handler returns.
abbrev pub Returns : {S A : Type 0} → Result A × S → Type 0
Returns (ok a, s) = Unit
Returns (err e, s) = ⊥

module _ ⦃ext : External⦄ where
  -- Only the clock may have been read.
  pub record Unchanged (w w' : State) : Type 0 where
    pub db : w'.db ≡ w.db
    pub cache : w'.cache ≡ w.cache
    pub metrics : w'.metrics ≡ w.metrics
    pub later : w.identifiers ≤ w'.identifiers

-- What holds of the state either way holds after the run.
pub Ends-state :
    {S A : Type 0} {P : A → S → Type 0} {Q R : S → Type 0} (x : Result A × S)
    → Ends P Q x
    → ((a : A) (s : S) → P a s → R s)
    → ((s : S) → Q s → R s)
    → R x.1
Ends-state (ok a, s) h f g = f a s h
Ends-state (err e, s) h f g = g s h

-- What `Ends` says of a run that has returned.
pub Ends-ok :
    {S A : Type 0} (P : A → S → Type 0) (Q : S → Type 0) (x : Result A × S) {a : A}
    → Ends P Q x
    → x.0 ≡ ok a
    → (b : A) × P b x.1
Ends-ok P Q (ok b, s) p h = (b, p)
Ends-ok P Q (err e, s) p h = cc

-- The promise holds of the very value that was returned.
pub Ends-returned :
    {S A : Type 0} (P : A → S → Type 0) (Q : S → Type 0) (x : Result A × S) {a : A}
    → Ends P Q x
    → x.0 ≡ ok a
    → P a x.1
Ends-returned P Q (ok b, s) {a} p h = let e : b ≡ a = cc in rw e at p
Ends-returned P Q (err e, s) p h = cc

-- How a block goes on when its first part raises, and when it returns.
module _ {S A B : Type 0} (m : Exec S A) (f : A → Exec S B) {w s : S} where
  pub bind-err : {e : Error} → m w ≡ (err e, s) → (m >>= f) w ≡ (err e, s)
  bind-err h = ap (λ x. ((λ _. x) >>= f) w) h

  pub bind-ok : {a : A} → m w ≡ (ok a, s) → (m >>= f) w ≡ f a s
  bind-ok h = ap (λ x. ((λ _. x) >>= f) w) h

-- ===== src/Exec.antt =====
-- Handlers that read and write a state and may raise. What was done before a raise stays done, so
-- the state comes back beside the error too.
use library_api.Prelude.{Bool, true, false, Option, none, some}
use library_api.Errors.{Error, domain, DomainException}
use library_api.Table.{Scalar, value, raises}

pub data Result (A : Type 0) : Type 0 where
  ok : A → Result A
  err : Error → Result A

abbrev pub Exec : Type 0 → Type 0 → Type 0
Exec S A = S → Result A × S

module _ {S A : Type 0} where
  abbrev pub pure : A → Exec S A
  pure a s = (ok a, s)

  abbrev pub raise : Error → Exec S A
  raise e s = (err e, s)

  abbrev pub gets : (S → A) → Exec S A
  gets f s = (ok (f s), s)

  -- A method that returns a value and cannot raise.
  abbrev pub run : (S → A × S) → Exec S A
  run f s = let (a, s') = f s in (ok a, s')

  -- `if not x: raise e`
  abbrev pub or_raise : Option A → DomainException → Exec S A
  or_raise none e = raise (domain e)
  or_raise (some a) e = pure a

  abbrev pub scalar : Scalar A → Exec S (Option A)
  scalar (value o) s = (ok o, s)
  scalar (raises e) s = (err e, s)

module _ {S : Type 0} where
  abbrev pub raise_if : Bool → DomainException → Exec S (Unit {0})
  raise_if true e = raise (domain e)
  raise_if false e = pure tt

  abbrev pub modify : (S → S) → Exec S (Unit {0})
  modify f s = (ok tt, f s)

infixl 5 ◌>>=◌ ◌>>◌
abbrev pub ◌>>=◌ : {S A B : Type 0} → Exec S A → (A → Exec S B) → Exec S B
◌>>=◌ m f s = let (r, s') = m s in elim r [ ok a ↦ f a s' | err e ↦ raise e s' ]

abbrev pub ◌>>◌ : {S A B : Type 0} → Exec S A → Exec S B → Exec S B
m >> k = m >>= λ _. k

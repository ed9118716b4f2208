-- ===== src/Migrations/Admin.antt =====
-- alembic/versions/8f2a9c1d4b71_add_role_and_seed_admin.py: what the seed makes of the users.
use library_api.Migrations.Operations.{assign}
use library_api.Migrations.Kept.{read-append, read-assign}
use library_api.Prelude.{
  String, ◌≡◌, refl, ◌∙◌, true, false, List, [], ◌∷◌, ◌++◌, map, arith, select, count, not,
  if◌then◌else◌, ◌==◌, Bool, Bool-cases, eq_iff, inl, inr, ap, ◌+◌,
}
use library_api.Migrations.Schema.{Cell, string, Record, read, any}
use library_api.Migrations.Seed.{has_email}

abbrev pub with_role : Record → Record
with_role r = r ++ ("role", string "USER") ∷ []

abbrev pub is_other : String → Record → Bool
is_other e r = not (has_email e r)

abbrev pub rights : Record → Cell × Cell
rights r = (read "role" r, read "is_active" r)

-- The rows of `users` before and after a seed with the address `e`.
pub record IsSeeded (e : String) (row : Record) (l l' : List Record) : Type 0 where
  -- Everyone else is as before, with the role of a user.
  pub others : select (is_other e) l' ≡ map with_role (select (is_other e) l)
  -- Whoever has the address is an active administrator,
  pub admins :
      map rights (select (has_email e) l')
      ≡ map (λ r. (string "ADMIN", Cell.boolean true)) (select (has_email e) l')
  -- and someone has it: those who had it, or one more row.
  pub present : count (has_email e) l' ≡ (if any (has_email e) l then count (has_email e) l else 1)
  -- That row is the administrator's, behind those that were there.
  pub entered : any (has_email e) l ≡ false → l' ≡ map with_role l ++ row ∷ []

read-assigned : (c : String) (v : Cell) (r : Record) → read c (assign c v r) ≡ v
unfolding read assign
read-assigned c v [] = ground (arith, eq_iff c c)
read-assigned c v ((k, w) ∷ r) = ground (arith, eq_iff k c, read-assigned c v r)

abbrev promote : String → Record → Record
promote e r = if has_email e r then assign "role" (string "ADMIN") r else r

abbrev activate : String → Record → Record
activate e r = if has_email e r then assign "is_active" (Cell.boolean true) r else r

module _ (e : String) where
  pub has_email-with_role : (r : Record) → has_email e (with_role r) ≡ has_email e r
  has_email-with_role r = rw (read-append "email" "role" (string "USER") r refl) refl

  has_email-assign :
      (k : String) (v : Cell) (r : Record)
      → (k == "email") ≡ false
      → has_email e (assign k v r) ≡ has_email e r
  has_email-assign k v r h = rw (read-assign "email" k v r h) refl

  abbrev updated : Record → Record
  updated r = activate e (promote e (with_role r))

  updated_other : (r : Record) → has_email e r ≡ false → updated r ≡ with_role r
  updated_other r h = rw (has_email-with_role r, h, has_email-with_role r, h) refl

  updated_here :
      (r : Record)
      → has_email e r ≡ true
      → updated r
        ≡ assign "is_active" (Cell.boolean true) (assign "role" (string "ADMIN") (with_role r))
  updated_here r h =
      let first : has_email e (with_role r) ≡ true = has_email-with_role r ∙ h in
      let second = has_email-assign "role" (string "ADMIN") (with_role r) refl ∙ first in
      rw (first, second) refl

  updated_admin :
      (r : Record)
      → has_email e r ≡ true
      → (has_email e (updated r) ≡ true)
        × (rights (updated r) ≡ (string "ADMIN", Cell.boolean true))
  updated_admin r h =
      let r1 = assign "role" (string "ADMIN") (with_role r) in
      rw (updated_here r h) (
        has_email-assign "is_active" (Cell.boolean true) r1 refl
            ∙ has_email-assign "role" (string "ADMIN") (with_role r) refl
            ∙ has_email-with_role r
            ∙ h,
        rw
            (
              read-assign "role" "is_active" (Cell.boolean true) r1 refl,
              read-assigned "role" (string "ADMIN") (with_role r),
              read-assigned "is_active" (Cell.boolean true) r1,
            )
            refl,
      )

  abbrev pub after_update : List Record → List Record
  after_update l = map (activate e) (map (promote e) (map with_role l))

  pub update_others :
      (l : List Record)
      → select (is_other e) (after_update l) ≡ map with_role (select (is_other e) l)
  update_others [] = refl
  update_others (r ∷ l) = elim (Bool-cases (has_email e r)) [
    | inl mine ↦ rw (mine, (updated_admin r mine).0) (update_others l)
    | inr other ↦
        rw (other, updated_other r other, has_email-with_role r, other)
          (ap (λ k. with_role r ∷ k) (update_others l))
  ]

  pub update_admins :
      (l : List Record)
      → map rights (select (has_email e) (after_update l))
        ≡ map (λ r. (string "ADMIN", Cell.boolean true)) (select (has_email e) (after_update l))
  update_admins [] = refl
  update_admins (r ∷ l) = elim (Bool-cases (has_email e r)) [
    | inl mine ↦
        let (kept, right) = updated_admin r mine in
        rw (kept, right) (ap (λ k. (string "ADMIN", Cell.boolean true) ∷ k) (update_admins l))
    | inr other ↦ rw (updated_other r other, has_email-with_role r, other) (update_admins l)
  ]

  pub update_count :
      (l : List Record) → count (has_email e) (after_update l) ≡ count (has_email e) l
  update_count [] = refl
  update_count (r ∷ l) = elim (Bool-cases (has_email e r)) [
    | inl mine ↦ rw (mine, (updated_admin r mine).0) (ap (λ k. 1 + k) (update_count l))
    | inr other ↦
        rw (other, updated_other r other, has_email-with_role r, other)
          (ap (λ k. 0 + k) (update_count l))
  ]

-- ===== src/Migrations/Entered.antt =====
-- alembic/versions/8f2a9c1d4b71_add_role_and_seed_admin.py: the rows of the users after the seed,
-- by whether someone has the address.
use library_api.Prelude.{
  ◌≡◌, refl, true, false, List, [], ◌∷◌, ◌++◌, map, arith, select, count, Bool, eq_refl,
}
use library_api.External.{External}
use library_api.Migrations.Schema.{Record, read, any}
use library_api.Migrations.Seed.{Environment, AdminSeed, has_email, admin_row}
use library_api.Migrations.Admin.{
  IsSeeded, is_other, with_role, update_others, update_admins, update_count, after_update,
  has_email-with_role,
}

not_both : {b : Bool} → b ≡ true → b ≡ false → ⊥
not_both h k = cc

module _ ⦃ext : External⦄ (env : Environment) (a : AdminSeed) where
  mine : has_email a.email (admin_row env a) ≡ true
  unfolding read
  mine = eq_refl a.email

  abbrev pub after_insert : List Record → List Record
  after_insert l = map with_role l ++ admin_row env a ∷ []

  insert_others :
      (l : List Record)
      → select (is_other a.email) (after_insert l) ≡ map with_role (select (is_other a.email) l)
  insert_others [] = rw mine refl
  insert_others (r ∷ l) = ground (arith, has_email-with_role a.email r, insert_others l)

  insert_admin :
      (l : List Record)
      → any (has_email a.email) l ≡ false
      → select (has_email a.email) (after_insert l) ≡ admin_row env a ∷ []
  insert_admin [] h = rw mine refl
  insert_admin (r ∷ l) h = ground (arith, has_email-with_role a.email r, insert_admin l)

  insert_count :
      (l : List Record)
      → any (has_email a.email) l ≡ false
      → count (has_email a.email) (after_insert l) ≡ 1
  insert_count [] h = rw mine refl
  insert_count (r ∷ l) h = ground (arith, has_email-with_role a.email r, insert_count l)

  pub insert-IsSeeded :
      (l : List Record)
      → any (has_email a.email) l ≡ false
      → IsSeeded a.email (admin_row env a) l (after_insert l)
  unfolding read
  insert-IsSeeded l h = record {
    others = insert_others l;
    admins = rw (insert_admin l h) refl;
    present = rw h (insert_count l h);
    entered = λ _. refl;
  }

  pub update-IsSeeded :
      (l : List Record)
      → any (has_email a.email) l ≡ true
      → IsSeeded a.email (admin_row env a) l (after_update a.email l)
  update-IsSeeded l h = record {
    others = update_others a.email l;
    admins = update_admins a.email l;
    present = rw h (update_count a.email l);
    entered = λ none_there. absurd (not_both h none_there);
  }

-- ===== src/Tests/UserWitnesses.antt =====
-- The theorems on the accounts and on the books of an author at concrete inputs.
use library_api.Prelude.{◌≡◌, ◌+◌, refl, some, none, [], ◌∷◌, arith, Bool}
use library_api.Errors.{domain, business_rule, not_found, integrity_error}
use library_api.Datetime.{days}
use library_api.Tokens.{payload}
use library_api.Models.User.{User, UserRole, user_row}
use library_api.Models.Book.{book_row}
use library_api.Table.{find_by_key}
use library_api.Exec.{Result, ok, err, ◌>>=◌}
use library_api.World.{World, State}
use library_api.Security.{get_current_user}
use library_api.Users.Service.{
  CreateUser, UpdateUserRole, create_user, login, update_role, delete_user,
}
use library_api.Users.Effects.{new_user}
use library_api.Users.Accounts.{get_current_user-login}
use library_api.Users.Deletion.{create_user-delete_user}
use library_api.Authors.Repository as Authors
use library_api.Authors.Service.{UpdateAuthor, update_author, delete_author, edited}
use library_api.Authors.Catalogue.{get_book-delete_author}
use library_api.Books.Service.{get_book}
use library_api.Tests.Redis.{Store}
use library_api.Tests.Fixture.{local, world, tables, ana, casmurro, machado, noon}

abbrev carlos : CreateUser
carlos = record { name = "Carlos"; email = "carlos@example.com"; password = "segredo" }

carlos_registers : (create_user carlos world).0 ≡ ok (new_user carlos world)
unfolding create_user
carlos_registers = refl

carlos_is_new : find_by_key (local.uuid (world.identifiers + 1)) world.users ≡ none
unfolding find_by_key
carlos_is_new = refl

get_current_user-login_example :
    let session : State → Result User × State = (do
      answer ← login (record { email = "carlos@example.com"; password = "segredo" })
      get_current_user answer.access_token) in
    (session (create_user carlos world).1).0 ≡ ok (new_user carlos world)
get_current_user-login_example =
    get_current_user-login carlos world (new_user carlos world) carlos_registers carlos_is_new
      (ground arith)

abbrev token_of_ana : local.Token
token_of_ana = some (record { sub = "ana"; exp = noon + days 1; role = "USER" })

ana_is_deleted : (delete_user "ana" world).0 ≡ ok tt
unfolding delete_user find_by_key
ana_is_deleted = refl

token_is_valid :
    local.decode (local.clock (delete_user "ana" world).1.readings) token_of_ana
    ≡ payload (some "ana")
unfolding delete_user find_by_key
token_is_valid = refl

abbrev promote : UpdateUserRole
promote = record { role = UserRole.admin }

abbrev promoted : User
promoted = record ana { role = UserRole.admin }

ana_is_promoted : (update_role "ana" promote world).0 ≡ ok promoted
unfolding update_role find_by_key
ana_is_promoted = refl

token_stays_valid :
    local.decode (local.clock (update_role "ana" promote world).1.readings) token_of_ana
    ≡ payload (some "ana")
unfolding update_role find_by_key
token_stays_valid = refl

-- The only user was deleted.
abbrev left : World Store
left = record world { db = record tables { users = record ana { is_active = Bool.false } ∷ [] } }

abbrev ana_again : CreateUser
ana_again = record { name = "Ana"; email = "ana@example.com"; password = "outra" }

ana_is_there : find_by_key "ana" world.users ≡ some ana
unfolding find_by_key
ana_is_there = refl

create_user-delete_user_example :
    ((create_user ana_again world).0 ≡ err (domain (business_rule "E-mail já cadastrado")))
    × ((delete_user "ana" world).0 ≡ ok tt)
    × ((create_user ana_again (delete_user "ana" world).1).0 ≡ err integrity_error)
create_user-delete_user_example = create_user-delete_user ana_again world ana refl ana_is_there

author_is_deleted : (delete_author "machado" world).0 ≡ ok tt
unfolding delete_author find_by_key
author_is_deleted = refl

book_is_there : find_by_key "casmurro" world.books ≡ some casmurro
unfolding find_by_key
book_is_there = refl

get_book-delete_author_example :
    (get_book "casmurro" (delete_author "machado" world).1).0
    ≡ err (domain (not_found "Livro não encontrado"))
get_book-delete_author_example =
    get_book-delete_author refl "machado" "casmurro" casmurro world book_is_there refl
      author_is_deleted

abbrev shorter : UpdateAuthor
shorter = record { name = some (some "Machado"); biography = none }

author_is_there : Authors.find_by_id "machado" world ≡ some machado
unfolding find_by_key
author_is_there = refl

author_is_renamed : (update_author "machado" shorter world).0 ≡ ok (edited shorter machado)
unfolding update_author find_by_key
author_is_renamed = refl

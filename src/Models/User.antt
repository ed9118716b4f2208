-- ===== src/Models/User.antt =====
-- app/domain/users: `UserModel` and `UserRole`.
use library_api.Prelude.{String, Bool, true, false}
use library_api.Datetime.{Datetime}
use library_api.Table.{Row}

pub data UserRole : Type 0 where
  user admin : UserRole

abbrev pub role_eq : UserRole → UserRole → Bool
role_eq UserRole.user UserRole.user = true
role_eq UserRole.admin UserRole.admin = true
role_eq _ _ = false

pub record User : Type 0 where
  pub id : String
  pub name : String
  pub email : String
  pub password : String
  pub created_at : Datetime
  pub is_active : Bool
  pub role : UserRole

instance abbrev pub user_row : Row User
user_row = record { id_of = λ u. u.id }

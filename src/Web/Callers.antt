-- ===== src/Web/Callers.antt =====
-- Who a request over HTTP comes from: the outcomes of `get_current_user` and `get_current_admin`.
use library_api.Prelude.{
  ◌+◌, ◌≡◌, refl, ◌⊎◌, inl, inr, true, none, some, arith, Bool-cases, Option-cases,
}
use library_api.Errors.{DomainException, domain, unauthorized, not_found, exception_handler}
use library_api.Tokens.{Decoded, payload, expired_signature, invalid_token}
use library_api.Models.User.{User, user_row}
use library_api.Models.Reservation.{reservation_row}
use library_api.Table.{find_where_self}
use library_api.Exec.{ok, err}
use library_api.External.{External}
use library_api.World.{State}
use library_api.Users.Repository as Users
use library_api.Security.{is_admin, get_current_user, get_current_admin}
use library_api.Web.{error_status}

module _ ⦃ext : External⦄ where
  -- The state once the token has been decoded.
  abbrev pub tick : State → State
  tick w = record w { readings = w.readings + 1 }

  -- The token is valid now and names an active user.
  pub record IsCaller (token : ext.Token) (w : State) (user : User) : Type 0 where
    pub decoded : ext.decode (ext.clock w.readings) token ≡ payload (some user.id)
    pub known : Users.find_by_id user.id w ≡ some user

  -- The errors that tell a caller that he may not: their answers have the status 401 or 404.
  abbrev pub IsDenial : DomainException → Type 0
  IsDenial e = (error_status (domain e) ≡ 401) ⊎ (error_status (domain e) ≡ 404)

  -- What `get_current_user` did.
  pub data Identified (token : ext.Token) (w : State) : Type 0 where
    refused :
        (e : DomainException)
        → IsDenial e
        → get_current_user token w ≡ (err (domain e), tick w)
        → Identified token w
    accepted :
        (user : User)
        → IsCaller token w user
        → get_current_user token w ≡ (ok user, tick w)
        → Identified token w

  pub get_current_user-Identified : (token : ext.Token) (w : State) → Identified token w
  unfolding get_current_user error_status exception_handler
  get_current_user-Identified token w = go (ext.decode (ext.clock w.readings) token) refl
    where
      go : (d : Decoded) → ext.decode (ext.clock w.readings) token ≡ d → Identified token w
      go expired_signature h =
          refused (unauthorized "Token expirado") (inl refl) (ground (arith, h))
      go invalid_token h = refused (unauthorized "Token inválido") (inl refl) (ground (arith, h))
      go (payload none) h =
          refused (not_found "Usuário não encontrado") (inr refl) (ground (arith, h))
      go (payload (some user_id)) h = elim (Option-cases (Users.find_by_id user_id w)) [
        | inl unknown ↦
            refused (not_found "Usuário não encontrado") (inr refl) (ground (arith, h, unknown))
        | inr (user, found) ↦
            let (_, _, key) = find_where_self user_id Users.is_active w.users found in
            accepted user (record { decoded = rw key h; known = ground (arith, key, found) })
              (ground (arith, h, found))
      ]

  -- What `get_current_admin` did.
  pub data IdentifiedAdmin (token : ext.Token) (w : State) : Type 0 where
    denied :
        (e : DomainException)
        → IsDenial e
        → get_current_admin token w ≡ (err (domain e), tick w)
        → IdentifiedAdmin token w
    admitted :
        (user : User)
        → IsCaller token w user
        → is_admin user ≡ true
        → get_current_admin token w ≡ (ok user, tick w)
        → IdentifiedAdmin token w

  pub get_current_admin-IdentifiedAdmin : (token : ext.Token) (w : State) → IdentifiedAdmin token w
  unfolding get_current_admin error_status exception_handler
  get_current_admin-IdentifiedAdmin token w = elim (get_current_user-Identified token w) [
    | refused e denial h ↦ denied e denial (ground (arith, h))
    | accepted user who h ↦ elim (Bool-cases (is_admin user)) [
      | inl admin ↦ admitted user who admin (ground (arith, h, admin))
      | inr other ↦
          denied (unauthorized "Acesso de administrador obrigatório") (inl refl)
            (ground (arith, h, other))
    ]
  ]

-- ===== src/Security.antt =====
-- app/config/security/dependencies.py: who a request comes from.
use library_api.Prelude.{String, Bool, true, false, Option, none, some, if◌then◌else◌}
use library_api.Errors.{not_found, unauthorized}
use library_api.Tokens.{Decoded, payload, expired_signature, invalid_token}
use library_api.Models.User.{User, UserRole, role_eq}
use library_api.Exec.{Exec, pure, raise_if, run, gets, or_raise, ◌>>=◌, ◌>>◌}
use library_api.External.{External}
use library_api.World.{State, utcnow}
use library_api.Users.Repository as Users

abbrev pub is_admin : User → Bool
is_admin user = role_eq user.role UserRole.admin

module _ ⦃ext : External⦄ where
  -- `decode_token`, with the clock that PyJWT reads.
  abbrev pub decode_token : ext.Token → State → Decoded × State
  decode_token token w = let (now, w') = utcnow w in (ext.decode now token, w')

  -- `find_by_id(payload.get("sub"))`: no row has the key `None`.
  abbrev pub find_subject : Option String → State → Option User
  find_subject none w = none
  find_subject (some user_id) w = Users.find_by_id user_id w

  -- The user of a decoded token.
  abbrev pub identify : Decoded → Exec State User
  identify (payload sub) = do
    user ← gets (find_subject sub)
    or_raise user (not_found "Usuário não encontrado")
  identify expired_signature = or_raise none (unauthorized "Token expirado")
  identify invalid_token = or_raise none (unauthorized "Token inválido")

  unfoldable pub get_current_user : ext.Token → Exec State User
  get_current_user token = do decoded ← run (decode_token token); identify decoded

  unfoldable pub get_current_admin : ext.Token → Exec State User
  unfolding get_current_user
  get_current_admin token = do
    current_user ← get_current_user token
    raise_if (if is_admin current_user then false else true)
        (unauthorized "Acesso de administrador obrigatório")
    pure current_user

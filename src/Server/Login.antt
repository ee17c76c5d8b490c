-- ===== src/Server/Login.antt =====
-- `validate_auth` of crates/zetmq-server/src/session/handler.rs.
use zet_mq.Prelude.{List, [], ◌∷◌, ◌&&◌, Option, none, some, if◌then◌else◌, str_eq}
use zet_mq.Text.{Str}
use zet_mq.Protocol.Payload.{AuthInfo, no_auth, token, user_pass}
use zet_mq.Server.Auth
use zet_mq.Server.Auth.{AuthContext, AuthError, unrestricted, from_permissions}
use zet_mq.Server.Config.{AuthConfig, UserConfig, is_enabled}

-- The messages of a refusal, as data.
pub data AuthFailure : Type 0 where
  invalid_token invalid_user user_required : AuthFailure
  invalid_permissions : AuthError → AuthFailure

pub data Login : Type 0 where
  accepted : AuthContext → Login
  refused : AuthFailure → Login

abbrev pub of_permissions : Auth.AuthResult → Login
of_permissions (Auth.accepted ctx) = accepted ctx
of_permissions (Auth.refused e) = refused (invalid_permissions e)

-- `users.iter().find(..)`
unfoldable pub find_user : Str → Str → List UserConfig → Option UserConfig
find_user username password [] = none
find_user username password (u ∷ users) =
    let rest = find_user username password users in
    if str_eq u.username username && str_eq u.password password then some u else rest

-- `token` and `userpass`
abbrev pub token_type : Str
token_type = b't' ∷ b'o' ∷ b'k' ∷ b'e' ∷ b'n' ∷ []

abbrev pub userpass_type : Str
userpass_type = b'u' ∷ b's' ∷ b'e' ∷ b'r' ∷ b'p' ∷ b'a' ∷ b's' ∷ b's' ∷ []

abbrev pub expected_token : Option Str → Str
expected_token none = []
expected_token (some t) = t

unfoldable pub by_token : AuthConfig → AuthInfo → Login
by_token config (token t) =
    if str_eq t (expected_token config.token) then accepted unrestricted else refused invalid_token
by_token config no_auth = refused invalid_token
by_token config (user_pass u p) = refused invalid_token

unfoldable pub by_user : AuthConfig → AuthInfo → Login
unfolding find_user
by_user config (user_pass u p) = elim (find_user u p config.users) [
  | none ↦ refused invalid_user
  | some user ↦ of_permissions (from_permissions u user.permissions)
]
by_user config no_auth = refused user_required
by_user config (token t) = refused user_required

unfoldable pub validate_auth : AuthInfo → AuthConfig → Login
unfolding is_enabled by_token by_user
validate_auth auth config =
    if is_enabled config
    then (if str_eq config.auth_type token_type
        then by_token config auth
        else if str_eq config.auth_type userpass_type
        then by_user config auth
        else accepted unrestricted)
    else accepted unrestricted

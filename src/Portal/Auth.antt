-- ===== src/Portal/Auth.antt =====
-- The authentication of internal/server/server.go and internal/server/portal.go: requireAuth,
-- portalAuth, the login and the logout, with the cookie that a browser then holds.
pub mod Session
use plex_mirror.Base.{
  ℕ, Bool, true, false, not, ◌&&◌, ◌||◌, Option, none, some, List, [], ◌∷◌, keep, if◌then◌else◌,
  ◌==◌, ltb, leb, Text, codes, text_eq, is_empty, has_prefix, trim_prefix,
}

-- The cookie of that name, and the Authorization header, empty where it is absent.
pub record Request : Type 0 where
  pub cookie : Option Text
  pub authorization : Text

pub data Answer : Type 0 where
  served : Answer
  unauthorized : Answer
  see_login : Answer
  see_browse : Answer
  login_form : Answer
  incorrect_token : Answer

abbrev pub bearer_prefix : Text
bearer_prefix = codes "Bearer "

unfoldable pub bears : Text → Text → Bool
unfolding has_prefix trim_prefix text_eq
bears token h = has_prefix bearer_prefix h && text_eq (trim_prefix bearer_prefix h) token

-- requireAuth
unfoldable pub require_auth : Text → Request → Answer
unfolding bears
require_auth token r =
    if is_empty token
    then served
    else if not (bears token r.authorization)
    then unauthorized
    else served

abbrev pub holds : Text → Option Text → Bool
holds token none = false
holds token (some value) = text_eq value token

unfoldable pub authed : Text → Request → Bool
unfolding bears text_eq
authed token r =
    if is_empty token
    then true
    else if holds token r.cookie
    then true
    else if bears token r.authorization
    then true
    else false

-- portalAuth
unfoldable pub portal_auth : Text → Request → Answer
unfolding authed
portal_auth token r = if authed token r then served else see_login

-- handleLoginGet
unfoldable pub login_get : Text → Request → Answer
unfolding authed
login_get token r = if is_empty token || authed token r then see_browse else login_form

-- What http.SetCookie keeps of a value: the other bytes are dropped, also all of a character beyond
-- ASCII. A value with a blank or a comma is quoted, and the quotes are taken off when it is read.
abbrev pub is_cookie_byte : ℕ → Bool
is_cookie_byte c =
    leb 0x20 c && ltb c 0x7F && not (c == b'"') && not (c == b';') && not (c == b'\\')

unfoldable pub cookie_value : Text → Text
unfolding keep
cookie_value token = keep is_cookie_byte token

-- handleLoginPost: the answer, and the cookie that the browser holds after it.
unfoldable pub login_post : Text → Text → Option Text → Answer × Option Text
unfolding cookie_value text_eq
login_post token posted cookie =
    if is_empty token
    then (see_browse, cookie)
    else if not (text_eq posted token)
    then (incorrect_token, cookie)
    else (see_browse, some (cookie_value token))

-- handleLogout
abbrev pub logout : Option Text → Answer × Option Text
logout cookie = (see_login, none)

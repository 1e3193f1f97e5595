-- ===== src/Auth.antt =====
-- Authentication: the provider of frontend/src/contexts/auth-context.tsx, with the token that is kept
-- in the browser's storage, and frontend/src/lib/api-client.ts. The server's replies are inputs, which come
-- in any order, also after a logout or another login.
pub mod Session
pub mod Fetch
pub mod Guard
mod Tests
use vps_monitor.Common.{
  ℕ, Text, codes, truthy, text_eq, Option, none, some, List, [], ◌∷◌, ◌++◌, Bool, true, false, not,
  ◌&&◌, ◌||◌, if◌then◌else◌, leb, ◌==◌, is_some,
}
use vps_monitor.Common.Dict.{set, set_all}
use vps_monitor.Common.Sets.{has}

pub record User : Type 0 where
  pub username : Text
  pub role : Text

-- The JSON of a reply.
pub record Body : Type 0 where
  pub token : Text
  pub user : User

-- The request failed, or was answered with a status and what `response.json()` gives, where `none` is
-- that it throws.
pub data Reply : Type 0 where
  unreachable : Reply
  replied : ℕ → Option Body → Reply

-- `stored` is the token in the storage.
pub record Auth : Type 0 where
  pub user : Option User
  pub token : Option Text
  pub is_loading : Bool
  pub is_auth_enabled : Bool
  pub stored : Option Text

abbrev pub initial : Option Text → Auth
initial stored = record {
  user = none;
  token = none;
  is_loading = true;
  is_auth_enabled = true;
  stored = stored;
}

-- `response.ok`.
abbrev pub ok : ℕ → Bool
ok status = leb 200 status && leb status 299

-- The truth value of a token.
abbrev pub present : Option Text → Bool
present none = false
present (some t) = truthy t

abbrev forgotten : Auth → Auth
forgotten s = record s { user = none; token = none; stored = none }

unfoldable pub check_if_auth_enabled : Reply → Auth → Auth
check_if_auth_enabled unreachable s = record s { is_loading = false }
check_if_auth_enabled (replied status body) s =
    if status == 404
    then record s { is_auth_enabled = false; is_loading = false }
    else record s { is_loading = false }

unfoldable pub verify_token : Text → Reply → Auth → Auth
verify_token t unreachable s = record (forgotten s) { is_loading = false }
verify_token t (replied status none) s =
    if status == 404
    then record (forgotten s) { is_auth_enabled = false; is_loading = false }
    else record (forgotten s) { is_loading = false }
verify_token t (replied status (some body)) s =
    if ok status
    then record s {
      user = some body.user;
      token = some t;
      is_auth_enabled = true;
      is_loading = false;
    }
    else if status == 404
    then record (forgotten s) { is_auth_enabled = false; is_loading = false }
    else record (forgotten s) { is_loading = false }

-- The state after the request with the stored token, and whether it is valid.
unfoldable pub check_reply : Text → Reply → Auth → Auth × Bool
check_reply t unreachable s = (s, false)
check_reply t (replied status none) s = if ok status then (s, false) else (forgotten s, false)
check_reply t (replied status (some body)) s =
    if ok status
    then (record s { user = some body.user; token = some t }, true)
    else (forgotten s, false)

-- The state, and whether the login ended without an error.
unfoldable pub login : Reply → Auth → Auth × Bool
login unreachable s = (s, false)
login (replied status none) s = (s, false)
login (replied status (some body)) s =
    if ok status
    then (
      record s { user = some body.user; token = some body.token; stored = some body.token },
      true,
    )
    else (s, false)

unfoldable pub logout : Auth → Auth
logout s = forgotten s

unfoldable pub is_authenticated : Auth → Bool
is_authenticated s = present s.token && is_some s.user

-- The provider with the requests that have no reply yet: that of verifyToken, with its token, that of
-- checkIfAuthEnabled, and those of checkAuth, each with the token that was stored when it began.
pub record AuthProvider : Type 0 where
  pub auth : Auth
  pub verifying : Option Text
  pub probing : Bool
  pub checking : List Text

-- The effect that runs when the provider is mounted, up to its request.
unfoldable pub mount : Option Text → Auth → AuthProvider
mount (some (c ∷ t)) s = record {
  auth = record s { token = some (c ∷ t) };
  verifying = some (c ∷ t);
  probing = false;
  checking = [];
}
mount stored s = record { auth = s; verifying = none; probing = true; checking = [] }

abbrev pub opened : Option Text → AuthProvider
unfolding mount
opened stored = mount stored (initial stored)

-- What happens to the provider: a reply to each kind of request, a call of checkAuth, the reply to a login, a
-- logout, and a reply 401 to a request of authenticatedFetch.
pub data Input : Type 0 where
  probed verified : Reply → Input
  check_started : Input
  check_replied : Text → Reply → Input
  logged_in : Reply → Input
  logged_out unauthorized : Input

abbrev verified_with : Option Text → Reply → AuthProvider → AuthProvider
unfolding verify_token
verified_with none reply p = p
verified_with (some t) reply p = record p { auth = verify_token t reply p.auth; verifying = none }

abbrev check_from : Option Text → AuthProvider → AuthProvider
check_from (some (c ∷ t)) p = record p { checking = p.checking ++ (c ∷ t) ∷ [] }
check_from stored p = p

-- The list without the first element that is the text.
abbrev pub without : Text → List Text → List Text
without t [] = []
without t (u ∷ us) = let rest = without t us in if text_eq u t then us else u ∷ rest

unfoldable pub handle : Input → AuthProvider → AuthProvider
unfolding verified_with check_reply check_if_auth_enabled login logout
handle (probed reply) p =
    if p.probing then record p { auth = check_if_auth_enabled reply p.auth; probing = false } else p
handle (verified reply) p = verified_with p.verifying reply p
handle check_started p = check_from p.auth.stored p
handle (check_replied t reply) p =
    if has t p.checking
    then record p { auth = (check_reply t reply p.auth).0; checking = without t p.checking }
    else p
handle (logged_in reply) p = record p { auth = (login reply p.auth).0 }
handle logged_out p = record p { auth = logout p.auth }
handle unauthorized p = record p { auth = record p.auth { stored = none } }

abbrev pub handle_inputs : List Input → AuthProvider → AuthProvider
handle_inputs [] p = p
handle_inputs (i ∷ is) p = handle_inputs is (handle i p)

-- Headers by name, in lower case as the runtime keeps them.
abbrev pub Headers : Type 0
Headers = List (Text × Text)

-- The headers of a request: the ones of a Request, those of the options over them, and the token.
unfoldable pub request_headers : Option Text → Headers → Headers → Headers
request_headers none own options = set_all options own
request_headers (some []) own options = set_all options own
request_headers (some (c ∷ t)) own options =
    set (codes "authorization") (codes "Bearer " ++ c ∷ t) (set_all options own)

-- What is done after a reply with the status: the token that stays stored, and whether the browser goes
-- to the login page. The second argument is the reply of the login endpoint to an empty login.
unfoldable pub after_reply : ℕ → Reply → Text → Option Text → Option Text × Bool
after_reply status unreachable path stored =
    if status == 401 then (none, false) else (stored, false)
after_reply status (replied login_status body) path stored =
    if status == 401
    then (none, not (login_status == 404) && not (text_eq path (codes "/login")))
    else (stored, false)

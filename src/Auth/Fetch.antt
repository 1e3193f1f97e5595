-- ===== src/Auth/Fetch.antt =====
-- The headers that authenticatedFetch sends, and what it does on a reply.
use vps_monitor.Auth.{
  set_all, Reply, unreachable, replied, present, Headers, request_headers, after_reply,
}
use vps_monitor.Common.{
  ℕ, Text, codes, text_eq, Option, none, some, [], ◌∷◌, ◌++◌, Bool, false, not, ◌&&◌, if◌then◌else◌,
  ◌≡◌, arith, ◌==◌,
}
use vps_monitor.Common.Sets.{has}
use vps_monitor.Common.Dict.{get, keys, IsDict, get-set, get-set_all}

-- The value that the header has without a token.
abbrev pub plain : Headers → Headers → Text → Option Text
plain own options j = if has j (keys options) then get j options else get j own

-- The header of the token.
abbrev pub bearer : Option Text → Option Text
bearer none = none
bearer (some t) = some (codes "Bearer " ++ t)

-- If the names of the options' headers are distinct, a request carries the stored token as its
-- authorization, whatever headers were given, unless there is none or it is empty; every other
-- header is that of the options, or else that of the request.
pub get-request_headers :
    (stored : Option Text) (own options : Headers) (j : Text)
    → IsDict options
    → get j (request_headers stored own options) ≡ (
        if present stored && text_eq (codes "authorization") j
        then bearer stored
        else plain own options j)
unfolding request_headers
get-request_headers none own options j d = get-set_all options j own d
get-request_headers (some []) own options j d = get-set_all options j own d
get-request_headers (some (c ∷ t)) own options j d = ground (
  arith,
  get-set (codes "authorization") j (codes "Bearer " ++ c ∷ t) (set_all options own),
  get-set_all options j own d,
)

-- The login page exists and is not shown.
abbrev pub leads_to_login : Reply → Text → Bool
leads_to_login unreachable path = false
leads_to_login (replied status body) path =
    not (status == 404) && not (text_eq path (codes "/login"))

-- The stored token is forgotten exactly after a reply 401; the browser goes to the login page exactly
-- if, besides, the login endpoint answers with another status than 404 and the page is not shown yet.
pub after_reply_lem :
    (status : ℕ) (login : Reply) (path t : Text)
    → ((after_reply status login path (some t)).0 ≡ (if status == 401 then none else some t))
      × ((after_reply status login path (some t)).1 ≡ (status == 401 && leads_to_login login path))
unfolding after_reply
after_reply_lem status unreachable path t = ground arith
after_reply_lem status (replied login_status body) path t = ground arith

-- ===== src/Auth/Tests.antt =====
-- The provider and the requests with a token.
use vps_monitor.Common.{codes, none, some, List, [], ◌∷◌, ◌++◌, true, false, ◌≡◌, refl}
use vps_monitor.Common.Sets.{has}
use vps_monitor.Common.Dict.{keys, IsDict}
use vps_monitor.Auth.{
  Reply, replied, Input, opened, verified, check_started, logged_in, logged_out, unauthorized,
  handle, handle_inputs, verify_token, logout, Headers,
}
use vps_monitor.Auth.Session.{IsTracked, stored_tokens, issued, handle_inputs-IsTracked}

abbrev accepted : Reply
accepted = replied 200 (
    some (record {
      token = codes "t2";
      user = record { username = codes "ann"; role = codes "admin" };
    }))

abbrev inputs : List Input
inputs = check_started ∷ logged_out ∷ logged_in accepted ∷ verified accepted ∷ unauthorized ∷ []

handle_inputs-IsTracked_example :
    IsTracked
      (stored_tokens (some (codes "t1")) ++ issued inputs)
      (handle_inputs inputs (opened (some (codes "t1"))))
handle_inputs-IsTracked_example = handle_inputs-IsTracked (some (codes "t1")) inputs

-- A reply to the request of the effect that comes after a logout logs the user in again, with a token that is
-- not stored any more.
late_reply :
    (handle_inputs (logged_out ∷ verified accepted ∷ []) (opened (some (codes "t1")))).auth
    ≡ record {
      user = some (record { username = codes "ann"; role = codes "admin" });
      token = some (codes "t1");
      is_loading = false;
      is_auth_enabled = true;
      stored = none;
    }
unfolding handle opened verify_token logout
late_reply = refl

abbrev json : Headers
json = (codes "content-type", codes "application/json") ∷ []

json-IsDict : IsDict json
unfolding has keys
json-IsDict = (refl, tt)

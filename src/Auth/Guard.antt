-- ===== src/Auth/Guard.antt =====
-- The guard of the pages: requireAuthIfEnabled of frontend/src/lib/auth-guard.ts. What `redirect` makes, and
-- whether a thrown value is an Error whose message has the word, are parameters.
use vps_monitor.Common.{
  ◌≢◌, arith, ◌≡◌, ℕ, Text, Option, none, Bool, true, false, if◌then◌else◌, ◌==◌,
}
use vps_monitor.Auth.{present}

-- How the guard ends: the page is shown, or a value is thrown.
pub data Outcome (E : Type 0) : Type 0 where
  allowed : Outcome E
  thrown : E → Outcome E

-- `fetch` threw, or the server replied with a status.
pub data LoginReply (E : Type 0) : Type 0 where
  failed : E → LoginReply E
  responded : ℕ → LoginReply E

module _ {E : Type 0} (redirect : E) (is_redirect_error : E → Bool) where
  abbrev rethrown : E → Outcome E
  rethrown e = if is_redirect_error e then thrown e else allowed

  abbrev checked : LoginReply E → Outcome E
  checked (failed e) = rethrown e
  checked (responded status) = if status == 404 then allowed else rethrown redirect

  unfoldable pub require_auth_if_enabled : Option Text → LoginReply E → Outcome E
  require_auth_if_enabled token reply = if present token then allowed else checked reply

  -- If what `redirect` makes is not such an error, the guard stops nobody, whatever the token and the
  -- status that the server replies with are.
  pub require_auth_if_enabled-allowed :
      (token : Option Text) (status : ℕ)
      → is_redirect_error redirect ≡ false
      → require_auth_if_enabled token (responded status) ≡ allowed
  unfolding require_auth_if_enabled
  require_auth_if_enabled-allowed token status h = ground (arith, h)

  -- If it is one, a page without a token is shown only where the server replies with 404.
  pub require_auth_if_enabled-thrown :
      (status : ℕ)
      → is_redirect_error redirect ≡ true
      → status ≢ 404
      → require_auth_if_enabled none (responded status) ≡ thrown redirect
  unfolding require_auth_if_enabled
  require_auth_if_enabled-thrown status h n = ground (arith, h, n)

-- ===== src/Auth/Session.antt =====
-- What holds of the provider, frontend/src/contexts/auth-context.tsx, in whatever order replies come.
use vps_monitor.Common.{
  append-nil, Text, text_eq, text_eq_refl, text_eq_iff, Bool-cases, ◌==◌, Option, none, some, List,
  [], ◌∷◌, ◌++◌, Bool, true, false, ◌&&◌, ◌||◌, if◌then◌else◌, ◌≡◌, refl, subst, sym, ◌∙◌, arith,
  ◌⊎◌, inl, inr, is_some, All, All-append, append_assoc, if_holds,
}
use vps_monitor.Auth.{
  User, Reply, unreachable, replied, Auth, ok, AuthProvider, opened, verified_with, check_from,
  without, Input, probed, verified, check_started, check_replied, logged_in, logged_out,
  unauthorized, handle, handle_inputs, verify_token, check_if_auth_enabled, check_reply, login,
}
use vps_monitor.Common.Sets.{has, has-append}

-- The tokens that the server gave in replies to logins.
abbrev pub issued_by : Input → List Text
issued_by (logged_in (replied status (some body))) = if ok status then body.token ∷ [] else []
issued_by _ = []

abbrev pub issued : List Input → List Text
issued [] = []
issued (i ∷ is) = issued_by i ++ issued is

abbrev pub stored_tokens : Option Text → List Text
stored_tokens none = []
stored_tokens (some t) = t ∷ []

-- A token, if there is one, is among the texts.
abbrev pub IsAmong : List Text → Option Text → Type 0
IsAmong ts none = Unit
IsAmong ts (some t) = has t ts ≡ true

pub record IsHeld (ts : List Text) (s : Auth) : Type 0 where
  pub token : IsAmong ts s.token
  pub stored : IsAmong ts s.stored
  pub known : (s.user ≡ none) ⊎ (is_some s.token ≡ true)

-- The provider's token and the stored one are among the texts, a user is known only with a token, and the
-- provider is loading as long as the request of its effect has no reply.
pub record IsTracked (ts : List Text) (p : AuthProvider) : Type 0 where
  pub held : IsHeld ts p.auth
  pub loading : p.auth.is_loading ≡ (is_some p.verifying || p.probing)
  pub single : (is_some p.verifying && p.probing) ≡ false
  pub verifying : IsAmong ts p.verifying
  pub checking : All (λ t. has t ts ≡ true) p.checking

has-longer : (t : Text) (ts us : List Text) → has t ts ≡ true → has t (ts ++ us) ≡ true
has-longer t ts us h = ground (arith, has-append t ts us, h)

IsAmong-append : (ts us : List Text) (o : Option Text) → IsAmong ts o → IsAmong (ts ++ us) o
IsAmong-append ts us none h = tt
IsAmong-append ts us (some t) h = has-longer t ts us h

has-last : (t : Text) (ts : List Text) → has t (ts ++ t ∷ []) ≡ true
unfolding has
has-last t ts = ground (arith, has-append t ts (t ∷ []), text_eq_refl t)

All-has :
    (ts us xs : List Text) → All (λ t. has t ts ≡ true) xs → All (λ t. has t (ts ++ us) ≡ true) xs
All-has ts us [] h = tt
All-has ts us (x ∷ xs) h = (has-longer x ts us h.0, All-has ts us xs h.1)

All-without :
    (ts xs : List Text) (t : Text)
    → All (λ u. has u ts ≡ true) xs
    → All (λ u. has u ts ≡ true) (without t xs)
All-without ts [] t h = tt
All-without ts (x ∷ xs) t h =
    if_holds (All (λ u. has u ts ≡ true)) (text_eq x t) (λ _. h.1)
      (λ _. (h.0, All-without ts xs t h.1))

has-All :
    (ts xs : List Text) (t : Text)
    → has t xs ≡ true
    → All (λ u. has u ts ≡ true) xs
    → has t ts ≡ true
unfolding has
has-All ts [] t e h = ground (arith, e)
has-All ts (x ∷ xs) t e h = elim (Bool-cases (text_eq t x)) [
  | inl q ↦ subst (λ u. has u ts ≡ true) (sym ((text_eq_iff t x).0 q)) h.0
  | inr q ↦ has-All ts xs t (ground (arith, q, e)) h.1
]

IsHeld-append : (ts us : List Text) (s : Auth) → IsHeld ts s → IsHeld (ts ++ us) s
IsHeld-append ts us s h = record {
  token = IsAmong-append ts us s.token h.token;
  stored = IsAmong-append ts us s.stored h.stored;
  known = h.known;
}

verify_token-IsHeld :
    (ts : List Text) (t : Text) (reply : Reply) (s : Auth)
    → has t ts ≡ true
    → IsHeld ts s
    → IsHeld ts (verify_token t reply s) × ((verify_token t reply s).is_loading ≡ false)
unfolding verify_token
verify_token-IsHeld ts t unreachable s e h =
    (record { token = tt; stored = tt; known = inl refl }, refl)
verify_token-IsHeld ts t (replied status none) s e h =
    if_holds (λ r. IsHeld ts r × (r.is_loading ≡ false)) (status == 404)
      (λ _. (record { token = tt; stored = tt; known = inl refl }, refl))
      (λ _. (record { token = tt; stored = tt; known = inl refl }, refl))
verify_token-IsHeld ts t (replied status (some body)) s e h =
    if_holds (λ r. IsHeld ts r × (r.is_loading ≡ false)) (ok status)
      (λ _. (record { token = e; stored = h.stored; known = inr refl }, refl))
      (λ _.
        if_holds (λ r. IsHeld ts r × (r.is_loading ≡ false)) (status == 404)
          (λ _. (record { token = tt; stored = tt; known = inl refl }, refl))
          (λ _. (record { token = tt; stored = tt; known = inl refl }, refl)))

check_if_auth_enabled-IsHeld :
    (ts : List Text) (reply : Reply) (s : Auth)
    → IsHeld ts s
    → IsHeld ts (check_if_auth_enabled reply s)
      × ((check_if_auth_enabled reply s).is_loading ≡ false)
unfolding check_if_auth_enabled
check_if_auth_enabled-IsHeld ts unreachable s h =
    (record { token = h.token; stored = h.stored; known = h.known }, refl)
check_if_auth_enabled-IsHeld ts (replied status body) s h =
    if_holds (λ r. IsHeld ts r × (r.is_loading ≡ false)) (status == 404)
      (λ _. (record { token = h.token; stored = h.stored; known = h.known }, refl))
      (λ _. (record { token = h.token; stored = h.stored; known = h.known }, refl))

-- A check or a login holds only tokens that it was given, and does not touch the loading.
abbrev Kept : List Text → Auth → Auth → Type 0
Kept ts s r = IsHeld ts r × (r.is_loading ≡ s.is_loading)

check_reply-Kept :
    (ts : List Text) (t : Text) (reply : Reply) (s : Auth)
    → has t ts ≡ true
    → IsHeld ts s
    → Kept ts s (check_reply t reply s).0
unfolding check_reply
check_reply-Kept ts t unreachable s e h = (h, refl)
check_reply-Kept ts t (replied status none) s e h =
    if_holds (λ (r : Auth × Bool). Kept ts s r.0) (ok status) (λ _. (h, refl))
      (λ _. (record { token = tt; stored = tt; known = inl refl }, refl))
check_reply-Kept ts t (replied status (some body)) s e h =
    if_holds (λ (r : Auth × Bool). Kept ts s r.0) (ok status)
      (λ _. (record { token = e; stored = h.stored; known = inr refl }, refl))
      (λ _. (record { token = tt; stored = tt; known = inl refl }, refl))

IsHeld-login :
    (ts : List Text) (token : Text) (user : User) (s : Auth)
    → IsHeld
        (ts ++ token ∷ [])
        (record s { user = some user; token = some token; stored = some token })
IsHeld-login ts token user s = record {
  token = has-last token ts;
  stored = has-last token ts;
  known = inr refl;
}

login-Kept :
    (ts : List Text) (reply : Reply) (s : Auth)
    → IsHeld ts s
    → Kept (ts ++ issued_by (logged_in reply)) s (login reply s).0
unfolding login
login-Kept ts unreachable s h = (IsHeld-append ts [] s h, refl)
login-Kept ts (replied status none) s h = (IsHeld-append ts [] s h, refl)
login-Kept ts (replied status (some body)) s h = elim (Bool-cases (ok status)) [
  | inl e ↦ rw e (IsHeld-login ts body.token body.user s, refl)
  | inr e ↦ rw e (IsHeld-append ts [] s h, refl)
]

-- The same texts, with an empty list after them.
same_texts : (ts : List Text) (p : AuthProvider) → IsTracked ts p → IsTracked (ts ++ []) p
same_texts ts p h = subst (λ us. IsTracked us p) (sym (append-nil ts)) h

verified_with-IsTracked :
    (ts : List Text) (o : Option Text) (reply : Reply) (p : AuthProvider)
    → p.verifying ≡ o
    → IsTracked ts p
    → IsTracked ts (verified_with o reply p)
unfolding verified_with
verified_with-IsTracked ts none reply p e h = h
verified_with-IsTracked ts (some t) reply p e h =
    let n : p.probing ≡ false = ground (arith, e, h.single) in
    let step = verify_token-IsHeld ts t reply p.auth (subst (IsAmong ts) e h.verifying) h.held in
    record {
      held = step.0;
      loading = rw (step.1, n) refl;
      single = refl;
      verifying = tt;
      checking = h.checking;
    }

check_from-IsTracked :
    (ts : List Text) (o : Option Text) (p : AuthProvider)
    → p.auth.stored ≡ o
    → IsTracked ts p
    → IsTracked ts (check_from o p)
check_from-IsTracked ts none p e h = h
check_from-IsTracked ts (some []) p e h = h
check_from-IsTracked ts (some (c ∷ t)) p e h = record {
  held = h.held;
  loading = h.loading;
  single = h.single;
  verifying = h.verifying;
  checking =
      All-append (λ u. has u ts ≡ true) p.checking _ h.checking
        (subst (IsAmong ts) e h.held.stored, tt);
}

handle-IsTracked :
    (ts : List Text) (i : Input) (p : AuthProvider)
    → IsTracked ts p
    → IsTracked (ts ++ issued_by i) (handle i p)
unfolding handle
handle-IsTracked ts (probed reply) p h = same_texts ts _ (
    if_holds (IsTracked ts) p.probing
      (λ e.
        let step = check_if_auth_enabled-IsHeld ts reply p.auth h.held in
        let n : is_some p.verifying ≡ false = ground (arith, e, h.single) in
        record {
          held = step.0;
          loading = rw (step.1, n) refl;
          single = rw n refl;
          verifying = h.verifying;
          checking = h.checking;
        })
      (λ _. h))
handle-IsTracked ts (verified reply) p h =
    same_texts ts _ (verified_with-IsTracked ts p.verifying reply p refl h)
handle-IsTracked ts check_started p h =
    same_texts ts _ (check_from-IsTracked ts p.auth.stored p refl h)
handle-IsTracked ts (check_replied t reply) p h = same_texts ts _ (
    if_holds (IsTracked ts) (has t p.checking)
      (λ e.
        let step =
          check_reply-Kept ts t reply p.auth (has-All ts p.checking t e h.checking) h.held in
        record {
          held = step.0;
          loading = step.1 ∙ h.loading;
          single = h.single;
          verifying = h.verifying;
          checking = All-without ts p.checking t h.checking;
        })
      (λ _. h))
handle-IsTracked ts (logged_in reply) p h =
    let step = login-Kept ts reply p.auth h.held in
    record {
      held = step.0;
      loading = step.1 ∙ h.loading;
      single = h.single;
      verifying = IsAmong-append ts (issued_by (logged_in reply)) p.verifying h.verifying;
      checking = All-has ts (issued_by (logged_in reply)) p.checking h.checking;
    }
handle-IsTracked ts logged_out p h = same_texts ts _ (record {
  held = record { token = tt; stored = tt; known = inl refl };
  loading = h.loading;
  single = h.single;
  verifying = h.verifying;
  checking = h.checking;
})
handle-IsTracked ts unauthorized p h = same_texts ts _ (record {
  held = record { token = h.held.token; stored = tt; known = h.held.known };
  loading = h.loading;
  single = h.single;
  verifying = h.verifying;
  checking = h.checking;
})

handle_inputs-IsTracked_from :
    (ts : List Text) (is : List Input) (p : AuthProvider)
    → IsTracked ts p
    → IsTracked (ts ++ issued is) (handle_inputs is p)
handle_inputs-IsTracked_from ts [] p h = same_texts ts p h
handle_inputs-IsTracked_from ts (i ∷ is) p h =
    subst (λ us. IsTracked us (handle_inputs is (handle i p)))
      (append_assoc ts (issued_by i) (issued is))
      (handle_inputs-IsTracked_from (ts ++ issued_by i) is (handle i p) (handle-IsTracked ts i p h))

opened-IsTracked : (stored : Option Text) → IsTracked (stored_tokens stored) (opened stored)
unfolding opened has text_eq
opened-IsTracked none = record {
  held = record { token = tt; stored = tt; known = inl refl };
  loading = refl;
  single = refl;
  verifying = tt;
  checking = tt;
}
opened-IsTracked (some []) = record {
  held = record { token = tt; stored = refl; known = inl refl };
  loading = refl;
  single = refl;
  verifying = tt;
  checking = tt;
}
opened-IsTracked (some (c ∷ t)) =
    let own : has (c ∷ t) ((c ∷ t) ∷ []) ≡ true = has-last (c ∷ t) [] in
    record {
      held = record { token = own; stored = own; known = inl refl };
      loading = refl;
      single = refl;
      verifying = own;
      checking = tt;
    }

-- Once the provider is mounted, in whatever order replies, checks, logins, logouts and replies 401 come, also
-- late ones: a user is known only with a token; the token and the stored one are ones that were stored
-- before or that the server gave in reply to a login; and the provider is loading exactly as long as the one
-- request of its effect has no reply.
pub handle_inputs-IsTracked :
    (stored : Option Text) (is : List Input)
    → IsTracked (stored_tokens stored ++ issued is) (handle_inputs is (opened stored))
handle_inputs-IsTracked stored is =
    handle_inputs-IsTracked_from (stored_tokens stored) is (opened stored) (opened-IsTracked stored)

-- ===== src/Settings/Auth/Complete.antt =====
-- What the settings' section on authentication sends:
-- frontend/src/features/settings/components/auth-section.tsx.
use vps_monitor.Common.{
  Text, truthy, trim, Option, none, some, List, [], ◌∷◌, Bool, true, false, not, ◌&&◌, ◌||◌,
  if◌then◌else◌, All, ◌≡◌, ◌≢◌, refl, arith, if_holds, is_some,
}
use vps_monitor.Settings.{is_env}
use vps_monitor.Settings.Auth.{
  AuthConfig, UpdateAuthPayload, AuthSection, Effect, auth_sent, opened, handle_save,
  new_password_of, is_editable, is_savable, saved, failed, Input, config_loaded, switched,
  username_typed, password_typed, save_pressed, update_succeeded, update_failed, handle,
}

-- A payload that a server with this configuration can take: to enable the login there is a name and a
-- password, a new one or the configured one, and no password is sent to disable it.
pub record IsComplete (config : AuthConfig) (p : UpdateAuthPayload) : Type 0 where
  pub writable : is_env config.source ≡ false
  pub named : (not p.enabled || truthy p.admin_username) ≡ true
  pub secured : (not p.enabled || config.password_configured || is_some p.new_password) ≡ true
  pub untouched : (p.enabled || not (is_some p.new_password)) ≡ true
  pub no_blank : p.new_password ≢ some []

-- What is sent is complete, and the other effects are nothing to the server.
abbrev pub IsFit : AuthConfig → Effect → Type 0
IsFit config (auth_sent p) = IsComplete config p
IsFit config _ = Unit

abbrev IsClear : AuthSection → Type 0
IsClear s = s.enabled ≡ false → s.password ≡ []

abbrev Keeps : AuthConfig → AuthSection × List Effect → Type 0
Keeps config (s, es) = IsClear s × All (IsFit config) es

some-new_password_of : (p : Text) → new_password_of p ≢ some []
some-new_password_of [] = λ e. ground (arith, e)
some-new_password_of (c ∷ p) = λ e. ground (arith, e)

is_some-new_password_of : (p : Text) → is_some (new_password_of p) ≡ truthy p
is_some-new_password_of [] = refl
is_some-new_password_of (c ∷ p) = refl

untouched_lem :
    (b : Bool) (p : Text) → (b ≡ false → p ≡ []) → (b || not (is_some (new_password_of p))) ≡ true
untouched_lem true p h = refl
untouched_lem false p h = rw (h refl) refl

handle_save-Keeps :
    (s : AuthSection) → is_env s.config.source ≡ false → IsClear s → Keeps s.config (handle_save s)
unfolding handle_save
handle_save-Keeps s w h =
    if_holds (Keeps s.config) (s.enabled && not (truthy (trim s.username))) (λ _. (h, (tt, tt)))
      (λ named.
        if_holds (Keeps s.config)
          (s.enabled && not s.config.password_configured && not (truthy s.password))
          (λ _. (h, (tt, tt)))
          (λ secured. (
            h,
            (
              record {
                writable = w;
                named = ground (arith, named);
                secured = ground (arith, secured, is_some-new_password_of s.password);
                untouched = untouched_lem s.enabled s.password h;
                no_blank = some-new_password_of s.password;
              },
              tt,
            ),
          )))

saved-Keeps :
    (o : Option Text) (msg : Text) (s : AuthSection) → IsClear s → Keeps s.config (saved o msg s)
saved-Keeps none msg s h = (h, tt)
saved-Keeps (some name) msg s h = (λ _. refl, (tt, tt))

failed-Keeps :
    (o : Option Text) (msg : Text) (s : AuthSection) → IsClear s → Keeps s.config (failed o msg s)
failed-Keeps none msg s h = (h, tt)
failed-Keeps (some name) msg s h = (h, (tt, tt))

switched_clear : (b : Bool) (p : Text) → b ≡ false → (if b then p else []) ≡ []
switched_clear b p e = ground (arith, e)

handle-Keeps : (i : Input) (s : AuthSection) → IsClear s → Keeps s.config (handle i s)
unfolding handle
handle-Keeps (config_loaded config) s h = (h, tt)
handle-Keeps (switched checked) s h =
    if_holds (Keeps s.config) (is_env s.config.source) (λ _. (h, tt))
      (λ _. (switched_clear checked s.password, tt))
handle-Keeps (username_typed t) s h =
    if_holds (Keeps s.config) (is_editable s) (λ _. (h, tt)) (λ _. (h, tt))
handle-Keeps (password_typed t) s h =
    if_holds (Keeps s.config) (is_editable s) (λ e. (λ off. ground (arith, e, off), tt))
      (λ _. (h, tt))
handle-Keeps save_pressed s h =
    if_holds (Keeps s.config) (is_savable s) (λ e. handle_save-Keeps s (ground (arith, e)) h)
      (λ _. (h, tt))
handle-Keeps (update_succeeded msg) s h = saved-Keeps s.saving msg s h
handle-Keeps (update_failed msg) s h = failed-Keeps s.saving msg s h

-- What each input of a session makes the section do, with the configuration at that time.
abbrev pub run : List Input → AuthSection → List (AuthConfig × List Effect)
run [] s = []
run (i ∷ is) s = (s.config, (handle i s).1) ∷ run is (handle i s).0

run-IsFit :
    (is : List Input) (s : AuthSection)
    → IsClear s
    → All (λ step. All (IsFit step.0) step.1) (run is s)
run-IsFit [] s h = tt
run-IsFit (i ∷ is) s h =
    ((handle-Keeps i s h).1, run-IsFit is (handle i s).0 (handle-Keeps i s h).0)

-- Whatever is done in the section, in whatever order, and however the configuration changes meanwhile,
-- each update that is sent fits the configuration at that time: it is not the environment's; an
-- update that enables the login has a user name that is not empty, and a new password unless one is
-- configured; an update that disables it has no password; and no new password is empty.
pub run-opened :
    (config : AuthConfig) (is : List Input)
    → All (λ step. All (IsFit step.0) step.1) (run is (opened config))
unfolding opened
run-opened config is = run-IsFit is (opened config) (λ _. refl)

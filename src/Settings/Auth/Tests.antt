-- ===== src/Settings/Auth/Tests.antt =====
-- A session with the section on authentication.
use vps_monitor.Common.{
  Text, codes, none, some, List, [], ◌∷◌, map, Bool, true, false, ◌≡◌, refl, All, trim,
}
use vps_monitor.Settings.{file}
use vps_monitor.Settings.Auth.{
  AuthConfig, Input, switched, username_typed, password_typed, save_pressed, update_succeeded,
  opened, username_toast, password_toast, auth_sent, replied_toast, handle,
}
use vps_monitor.Settings.Auth.Complete.{IsFit, run, run-opened}

abbrev closed : AuthConfig
closed = record {
  source = file;
  enabled = false;
  admin_username = none;
  password_configured = false;
}

abbrev enabling : List Input
enabling =
    password_typed (codes "lost")
    ∷ switched true
    ∷ save_pressed
    ∷ username_typed (codes " admin ")
    ∷ save_pressed
    ∷ password_typed (codes "pw")
    ∷ save_pressed
    ∷ save_pressed
    ∷ update_succeeded (codes "ok")
    ∷ []

run-opened_example : All (λ step. All (IsFit step.0) step.1) (run enabling (opened closed))
run-opened_example = run-opened closed enabling

sent_once :
    map (λ step. step.1) (run enabling (opened closed))
    ≡ []
      ∷ []
      ∷ (username_toast ∷ [])
      ∷ []
      ∷ (password_toast ∷ [])
      ∷ []
      ∷ (auth_sent (record {
        enabled = true;
        admin_username = codes "admin";
        new_password = some (codes "pw");
      })
          ∷ [])
      ∷ []
      ∷ (replied_toast (codes "ok") ∷ [])
      ∷ []
unfolding handle opened trim vps_monitor.Common.text_eq
sent_once = refl

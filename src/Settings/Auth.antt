-- ===== src/Settings/Auth.antt =====
-- The settings' section on authentication, frontend/src/features/settings/components/auth-section.tsx, with
-- AuthConfig of features/settings/types.ts and the payload of features/settings/api/update-auth.ts.
pub mod Complete
mod Tests
use vps_monitor.Common.{
  Text, truthy, text_eq, trim, or_else, Option, none, some, List, [], ◌∷◌, ◌++◌, Bool, true, false,
  not, ◌&&◌, ◌||◌, if◌then◌else◌, is_some,
}
use vps_monitor.Settings.{ConfigSource, is_env}

pub record AuthConfig : Type 0 where
  pub source : ConfigSource
  pub enabled : Bool
  pub admin_username : Option Text
  pub password_configured : Bool

pub record UpdateAuthPayload : Type 0 where
  pub enabled : Bool
  pub admin_username : Text
  pub new_password : Option Text

-- `config` is that of the props, and `saving` is the user name of the request that is pending.
pub record AuthSection : Type 0 where
  pub config : AuthConfig
  pub enabled : Bool
  pub username : Text
  pub password : Text
  pub saving : Option Text

pub data Effect : Type 0 where
  username_toast password_toast : Effect
  auth_sent : UpdateAuthPayload → Effect
  replied_toast : Text → Effect

unfoldable pub opened : AuthConfig → AuthSection
opened config = record {
  config = config;
  enabled = config.enabled;
  username = or_else config.admin_username [];
  password = [];
  saving = none;
}

abbrev differs : Bool → Bool → Bool
differs true b = not b
differs false b = b

unfoldable pub has_changes : AuthSection → Bool
has_changes s =
    differs s.enabled s.config.enabled
    || not (text_eq s.username (or_else s.config.admin_username []))
    || truthy s.password

abbrev pub new_password_of : Text → Option Text
new_password_of p = if truthy p then some p else none

unfoldable pub handle_save : AuthSection → AuthSection × List Effect
handle_save s =
    if s.enabled && not (truthy (trim s.username))
    then (s, username_toast ∷ [])
    else if s.enabled && not s.config.password_configured && not (truthy s.password)
    then (s, password_toast ∷ [])
    else (
      record s { saving = some (trim s.username) },
      auth_sent (record {
        enabled = s.enabled;
        admin_username = trim s.username;
        new_password = new_password_of s.password;
      })
          ∷ [],
    )

-- The fields are shown only while the switch is on, and are off where the configuration is the
-- environment's.
abbrev pub is_editable : AuthSection → Bool
is_editable s = s.enabled && not (is_env s.config.source)

-- The button, which is shown where there are changes, and is off while a request is pending.
abbrev pub is_savable : AuthSection → Bool
unfolding has_changes
is_savable s = has_changes s && not (is_env s.config.source) && not (is_some s.saving)

-- `onSuccess`: the fields are those of the request, whatever was typed since.
abbrev pub saved : Option Text → Text → AuthSection → AuthSection × List Effect
saved none msg s = (s, [])
saved (some name) msg s =
    (record s { username = name; password = []; saving = none }, replied_toast msg ∷ [])

abbrev pub failed : Option Text → Text → AuthSection → AuthSection × List Effect
failed none msg s = (s, [])
failed (some name) msg s = (record s { saving = none }, replied_toast msg ∷ [])

pub data Input : Type 0 where
  config_loaded : AuthConfig → Input
  switched : Bool → Input
  username_typed password_typed : Text → Input
  save_pressed : Input
  update_succeeded update_failed : Text → Input

unfoldable pub handle : Input → AuthSection → AuthSection × List Effect
unfolding handle_save is_savable
handle (config_loaded config) s = (record s { config = config }, [])
handle (switched checked) s =
    if is_env s.config.source
    then (s, [])
    else (record s { enabled = checked; password = if checked then s.password else [] }, [])
handle (username_typed t) s = if is_editable s then (record s { username = t }, []) else (s, [])
handle (password_typed t) s = if is_editable s then (record s { password = t }, []) else (s, [])
handle save_pressed s = if is_savable s then handle_save s else (s, [])
handle (update_succeeded msg) s = saved s.saving msg s
handle (update_failed msg) s = failed s.saving msg s

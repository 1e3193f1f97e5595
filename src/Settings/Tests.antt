-- ===== src/Settings/Tests.antt =====
-- A session with the settings' list of docker hosts.
use vps_monitor.Common.{
  Text, codes, none, some, List, [], ◌∷◌, Bool, true, false, ◌≡◌, refl, ◌↔◌, All, trim,
}
use vps_monitor.Settings.{
  DockerHost, env, file, Section, blank, Input, config_loaded, edit_pressed, edited, edit_done,
  typed, add_pressed, remove_pressed, handle, original_file_hosts, env_hosts,
}
use vps_monitor.Settings.Names.{IsValid, IsConfig}
use vps_monitor.Settings.Valid.{handle_all, handle_all-IsValid}

abbrev hosts : List DockerHost
hosts =
    record { name = codes "local"; host = codes "unix"; source = env }
    ∷ record { name = codes "a"; host = codes "ssh"; source = file }
    ∷ []

abbrev fresh : Section
fresh = record {
  config = [];
  file_hosts = [];
  editing_index = none;
  editing_host = blank;
  is_adding = false;
  new_host = blank;
  test_results = [];
  testing_keys = [];
  effects = [];
}

abbrev session : List Input
session =
    config_loaded hosts
    ∷ typed (record { name = codes " b "; host = codes "tcp" })
    ∷ add_pressed
    ∷ edit_pressed 1
    ∷ remove_pressed 0
    ∷ edited (record { name = codes "a"; host = codes "tcp" })
    ∷ edit_done
    ∷ []

hosts-IsConfig : IsConfig hosts
unfolding original_file_hosts env_hosts vps_monitor.Common.text_eq
hosts-IsConfig = ((refl, tt), ((refl, (refl, refl)), tt))

handle_all-IsValid_example : IsValid (handle_all session fresh)
handle_all-IsValid_example =
    handle_all-IsValid session fresh (hosts-IsConfig, (tt, (tt, (tt, (tt, (tt, (tt, tt)))))))
      (record { distinct = tt; proper = tt; editing = tt })

-- The second host cannot take the name of the first.
refused :
    (handle_all session fresh).file_hosts
    ≡ record { name = codes "a"; host = codes "ssh" }
      ∷ record { name = codes "b"; host = codes "tcp" }
      ∷ []
unfolding handle trim vps_monitor.Common.text_eq
refused = refl

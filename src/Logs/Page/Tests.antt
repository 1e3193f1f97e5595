-- ===== src/Logs/Page/Tests.antt =====
-- The page of a container's logs and the names of downloads.
use vps_monitor.Common.{
  starts_with, drop, if◌then◌else◌, ℕ, Text, codes, Option, none, some, List, [], ◌∷◌, ◌++◌, Bool,
  true, false, ◌≡◌, refl, All,
}
use vps_monitor.Containers.{ContainerInfo, get_container_url_identifier}
use vps_monitor.Containers.Samples.{container, web, db}
use vps_monitor.Logs.Control.{Target, Sheet, mounted}
use vps_monitor.Logs.Page.{
  Page, loaded, recreated, waited, left, handle, is_addressed, find_container,
  find_container-address,
}
use vps_monitor.Logs.Download.{IsPlain, file_name, page_file_name, All-file_name}

abbrev same : Text → Text
same s = s

-- A decoder that reads %77 at the start as the letter w.
abbrev decoded : Text → Text
decoded s = if starts_with s (codes "%77") then 119 ∷ drop 3 s else s

find_container_example : find_container decoded (codes "%77eb") (db ∷ [] ++ web ∷ []) ≡ some web
unfolding is_addressed get_container_url_identifier vps_monitor.Common.text_eq
    vps_monitor.Common.starts_with
find_container_example =
    find_container-address decoded (codes "%77eb") (db ∷ []) [] web refl (refl, tt)

-- A container whose ID starts with another one's name is shown in its place if it comes first.
abbrev shadow : ContainerInfo
shadow = record (container (codes "db77") (codes "running") 5) { names = codes "/old" ∷ [] }

shadowed : find_container same (codes "db") (shadow ∷ db ∷ []) ≡ some shadow
unfolding find_container vps_monitor.Common.text_eq vps_monitor.Common.starts_with
shadowed = refl

abbrev named : List Text
named = codes "/a:b|c" ∷ []

All-file_name_example : All IsPlain (file_name named (codes "T3:4.5Z") (codes "txt"))
All-file_name_example =
    All-file_name named (codes "T3:4.5Z") (codes "txt")
      (refl, (refl, (refl, (refl, (refl, (refl, (refl, tt))))))) (refl, (refl, (refl, tt)))

saved_name :
    file_name named (codes "2025-01-02T03:04:05.678Z") (codes "txt")
    ≡ codes "a-b-c-logs-2025-01-02T03-04-05.txt"
unfolding file_name vps_monitor.Common.starts_with
saved_name = refl

-- The page keeps the slash and the colons.
page_name : page_file_name named (codes "03:04") (codes "txt") ≡ codes "/a:b|c-logs-03:04.txt"
unfolding page_file_name
page_name = refl

abbrev shown : Page Text
shown =
    handle same same (codes "web") (loaded (web ∷ []))
      (record { sheet = mounted; restarts = false })

-- A stream that is restarted after its container was recreated starts though the page was left meanwhile.
left_streaming :
    (handle same same (codes "web") waited (
      handle same same
        (codes "web")
        left
        (handle same same (codes "web") recreated shown))).sheet.controller
    ≡ some 1
unfolding handle vps_monitor.Common.text_eq vps_monitor.Common.starts_with
    vps_monitor.Logs.Control.start_streaming vps_monitor.Logs.Control.stop_streaming
left_streaming = refl

-- ===== src/Scanner/Sbom/Tests.antt =====
-- A session with the dialog of the bill of materials.
use vps_monitor.Scanner.Sbom.{
  SbomDialog, SbomData, initial, Input, opened, closed, generate_pressed, generate_succeeded,
  status_seen, sbom_loaded, handle, spdx_json, generate_sent, job_created, load_sent,
}
use vps_monitor.Common.{codes, none, some, List, [], ◌∷◌, ◌≡◌, refl}
use vps_monitor.Scanner.{complete}

abbrev first_data : SbomData
first_data = record { components = none; packages = some [] }

abbrev session : List Input
session =
    opened
    ∷ generate_pressed
    ∷ generate_succeeded (codes "j1")
    ∷ status_seen complete
    ∷ closed
    ∷ sbom_loaded first_data
    ∷ opened
    ∷ generate_pressed
    ∷ generate_succeeded (codes "j2")
    ∷ status_seen complete
    ∷ []

abbrev handle_all : List Input → SbomDialog → SbomDialog
handle_all [] s = s
handle_all (i ∷ is) s = handle_all is (handle i s)

-- The data of the first job that come after the dialog was closed are shown as those of the second, whose own
-- are not requested.
stale_data :
    (handle_all session initial).effects
    ≡ generate_sent spdx_json
      ∷ job_created (codes "j1")
      ∷ load_sent (codes "j1")
      ∷ generate_sent spdx_json
      ∷ job_created (codes "j2")
      ∷ []
unfolding handle
stale_data = refl

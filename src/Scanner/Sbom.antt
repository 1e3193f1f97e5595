-- ===== src/Scanner/Sbom.antt =====
-- The dialog that makes the bill of materials of an image: frontend/src/features/scanner/components/sbom-dialog.tsx,
-- with SBOMFormat, SBOMJob and SBOMComponent of features/scanner/types.ts. The replies of the server and the
-- jobs that the query loads are inputs.
mod Tests
use vps_monitor.Common.{
  suc, ℕ, Text, codes, text_eq, Option, none, some, List, [], ◌∷◌, ◌++◌, Bool, true, false, not,
  ◌&&◌, ◌||◌, if◌then◌else◌, is_some, find, map, or_else, length, ◌≡◌, refl, ap, ◌≤◌, ◌<◌, arith,
  if_holds,
}
use vps_monitor.Scanner.{
  ScanJobStatus, pending, pulling_scanner, scanning, complete, failed, cancelled, expired,
}

pub data SbomFormat : Type 0 where
  spdx_json cyclonedx_json : SbomFormat

pub record SbomJob : Type 0 where
  pub id : Text
  pub image_ref : Text
  pub host : Text
  pub format : SbomFormat
  pub status : ScanJobStatus
  pub result_id : Option Text
  pub created_at : ℕ
  pub error : Option Text

pub record SbomComponent : Type 0 where
  pub name : Text
  pub version : Text
  pub component_type : Text
  pub purl : Text

-- The parts of the JSON that are read.
pub record ExternalRef : Type 0 where
  pub reference_type : Text
  pub reference_locator : Text

pub record Package : Type 0 where
  pub name : Text
  pub version_info : Text
  pub external_refs : Option (List ExternalRef)

pub record SbomData : Type 0 where
  pub components : Option (List SbomComponent)
  pub packages : Option (List Package)

abbrev purl_of : Option ExternalRef → Text
purl_of none = []
purl_of (some r) = r.reference_locator

unfoldable pub package_component : Package → SbomComponent
package_component p = record {
  name = p.name;
  version = p.version_info;
  component_type = codes "package";
  purl = purl_of (find (λ r. text_eq r.reference_type (codes "purl")) (or_else p.external_refs []));
}

unfoldable pub get_sbom_components : SbomFormat → Option SbomData → List SbomComponent
unfolding package_component
get_sbom_components format none = []
get_sbom_components cyclonedx_json (some d) = or_else d.components []
get_sbom_components spdx_json (some d) = map package_component (or_else d.packages [])

pub data Effect : Type 0 where
  generate_sent : SbomFormat → Effect
  job_created : Text → Effect
  -- The request of the data by the effect, and that by the button.
  load_sent download_sent : Text → Effect
  failed_toast : Effect

-- `is_pending` is that the request of the generation has no reply yet.
pub record SbomDialog : Type 0 where
  pub is_open : Bool
  pub format : SbomFormat
  pub job_id : Option Text
  pub started : Bool
  pub downloading : Bool
  pub sbom_data : Option SbomData
  pub regen_blocked : Bool
  pub is_pending : Bool
  pub effects : List Effect

abbrev pub initial : SbomDialog
initial = record {
  is_open = false;
  format = spdx_json;
  job_id = none;
  started = false;
  downloading = false;
  sbom_data = none;
  regen_blocked = false;
  is_pending = false;
  effects = [];
}

abbrev pub is_complete : ScanJobStatus → Bool
is_complete complete = true
is_complete _ = false

abbrev pub load_of : Option Text → SbomDialog → SbomDialog
load_of none s = s
load_of (some id) s = record s { effects = s.effects ++ load_sent id ∷ [] }

-- The effect of a render that sees the job complete, or the data or the id changed since.
unfoldable pub load_effect : ScanJobStatus → SbomDialog → SbomDialog
load_effect status s =
    if is_complete status && not (is_some s.sbom_data) then load_of s.job_id s else s

abbrev pub download_of : Option Text → SbomDialog → SbomDialog
download_of none s = s
download_of (some id) s = record s {
  downloading = true;
  effects = s.effects ++ download_sent id ∷ [];
}

pub data Panel : Type 0 where
  blocked_panel start_panel generating_panel failed_panel nothing : Panel
  complete_panel : Bool → List SbomComponent → Panel

abbrev status_panel : ScanJobStatus → SbomDialog → Panel
unfolding get_sbom_components
status_panel complete s =
    complete_panel (is_some s.sbom_data) (get_sbom_components s.format s.sbom_data)
status_panel failed s = failed_panel
status_panel cancelled s = nothing
status_panel _ s = generating_panel

abbrev job_panel : Option SbomJob → SbomDialog → Panel
unfolding status_panel
job_panel none s = nothing
job_panel (some job) s = status_panel job.status s

-- What the dialog shows, of the job that the query has loaded.
unfoldable pub panel : Option SbomJob → SbomDialog → Panel
unfolding job_panel
panel job s =
    if s.regen_blocked
    then blocked_panel
    else if not s.started
    then start_panel
    else job_panel job s

-- The buttons of the panels for a job may be pressed at any time here, also where they are not shown.
pub data Input : Type 0 where
  opened closed : Input
  format_chosen : SbomFormat → Input
  generate_pressed : Input
  generate_succeeded : Text → Input
  generate_refused generate_failed : Input
  -- The status of the job as a render sees it for the first time.
  status_seen : ScanJobStatus → Input
  sbom_loaded : SbomData → Input
  download_pressed retry_pressed : Input
  download_ended : Bool → Input

unfoldable pub handle : Input → SbomDialog → SbomDialog
unfolding load_effect
handle opened s = record s { is_open = true }
handle closed s = record s {
  is_open = false;
  job_id = none;
  started = false;
  downloading = false;
  sbom_data = none;
  regen_blocked = false;
}
handle (format_chosen format) s =
    if s.started || s.regen_blocked then s else record s { format = format }
handle generate_pressed s =
    if s.started || s.regen_blocked || s.is_pending
    then s
    else record s { is_pending = true; effects = s.effects ++ generate_sent s.format ∷ [] }
handle (generate_succeeded id) s =
    if s.is_pending
    then record s {
      is_pending = false;
      job_id = some id;
      started = true;
      effects = s.effects ++ job_created id ∷ [];
    }
    else s
handle generate_refused s =
    if s.is_pending then record s { is_pending = false; regen_blocked = true } else s
handle generate_failed s =
    if s.is_pending
    then record s { is_pending = false; effects = s.effects ++ failed_toast ∷ [] }
    else s
handle (status_seen status) s = load_effect status s
handle (sbom_loaded d) s = record s { sbom_data = some d }
handle download_pressed s = if s.downloading then s else download_of s.job_id s
handle retry_pressed s = record s { started = false; job_id = none }
handle (download_ended ok) s = record s {
  downloading = false;
  effects = if ok then s.effects else s.effects ++ failed_toast ∷ [];
}

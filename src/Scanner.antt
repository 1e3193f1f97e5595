-- ===== src/Scanner.antt =====
-- The vulnerability scanner: frontend/src/features/scanner/types.ts, with the results table, the export
-- and the observation of running jobs in the children.
pub mod Table
pub mod Export
pub mod Markdown
pub mod Jobs
pub mod History
pub mod Dialog
pub mod Bulk
pub mod Sbom
mod Tests
use vps_monitor.Common.{ℕ, Text, Option, List, Bool, true, false, codes, Ordering, compare}

pub data SeverityLevel : Type 0 where
  critical high medium low negligible unknown : SeverityLevel

pub data ScanJobStatus : Type 0 where
  pending pulling_scanner scanning complete failed cancelled expired : ScanJobStatus

pub record Vulnerability : Type 0 where
  pub id : Text
  pub severity : SeverityLevel
  pub package_name : Text
  pub installed_version : Text
  pub fixed_version : Option Text
  pub description : Option Text
  pub data_source : Option Text

-- The string of a level.
abbrev pub severity_text : SeverityLevel → Text
severity_text critical = codes "Critical"
severity_text high = codes "High"
severity_text medium = codes "Medium"
severity_text low = codes "Low"
severity_text negligible = codes "Negligible"
severity_text unknown = codes "Unknown"

unfoldable pub severity_order : SeverityLevel → ℕ
severity_order critical = 0
severity_order high = 1
severity_order medium = 2
severity_order low = 3
severity_order negligible = 4
severity_order unknown = 5

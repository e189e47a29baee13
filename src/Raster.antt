-- ===== src/Raster.antt =====
-- src/raster.rs: what a print callback reports, and the page geometry of a job.
use ipp_printer_app.Base.{String, max, ℕ, List, Result, ok}
use ipp_printer_app.Flags.Reason
use ipp_printer_app.Flags.Reason.{PrinterReason}

pub record JobFailure : Type 0 where
  pub printer_reasons : PrinterReason
  pub message : String

-- `JobFailure::new`.
abbrev pub new_failure : PrinterReason → String → JobFailure
new_failure printer_reasons message = record {
  printer_reasons = printer_reasons;
  message = message;
}

-- `JobFailure::other`.
abbrev pub other_failure : String → JobFailure
other_failure message = new_failure Reason.other message

pub data JobOutcome : Type 0 where
  completed : JobOutcome
  device_unavailable : PrinterReason → JobOutcome
  failed : JobFailure → JobOutcome

pub record JobOptions : Type 0 where
  pub width : ℕ
  pub height : ℕ
  pub bits_per_pixel : ℕ
  pub bytes_per_line : ℕ
  pub copies : ℕ

unfoldable pub from_cups_v1 : ℕ → ℕ → ℕ → ℕ → ℕ → JobOptions
from_cups_v1 width height bits_per_pixel bytes_per_line num_copies = record {
  width = width;
  height = height;
  bits_per_pixel = bits_per_pixel;
  bytes_per_line = bytes_per_line;
  copies = max num_copies 1;
}

-- The trait `RasterDriver`, with states `S`, devices `D` and printer handles `H`. The source gives only the default of
-- `start_page`, and nothing of the repository calls the trait.
pub record RasterDriver (S D H : Type 0) : Type 0 where
  pub start_job : H → JobOptions → D → Result JobFailure S
  pub start_page : JobOptions → ℕ → D → S → Result JobFailure S
  pub write_line : JobOptions → ℕ → List ℕ → S → Result JobFailure S
  pub end_page : JobOptions → ℕ → D → S → Result JobFailure S
  pub end_job : D → S → S

abbrev pub default_start_page : {S D : Type 0} → JobOptions → ℕ → D → S → Result JobFailure S
default_start_page options page device s = ok s

-- ===== src/Server.antt =====
-- src/server.rs: the state that the handlers, the print workers and the status poller share. Each of its
-- parts is behind a lock, and one locked access is one step.
pub mod Worker
pub mod Startup
pub mod MediaForm
pub mod Pages
pub mod Request
pub mod Wire
pub mod Handler
pub mod Operations
pub mod Dispatch
use ipp_printer_app.Base.{String, update_first, ℕ}
use ipp_printer_app.Flags.Reason.{PrinterReason}
use ipp_printer_app.Job.{JobRegistry, SystemTime}
use ipp_printer_app.Printer.{
  PrinterConfig, PrinterRecord, PrinterRegistry, is_named, set_printer_processing, set_printer_idle,
}
use ipp_printer_app.State.{Disk, PersistedState, Write, read_state}

-- `AppState`, with the file behind `state_path`. The callbacks and the backend are arguments of what calls
-- them.
pub record AppState : Type 0 where
  pub host : String
  pub port : ℕ
  pub printers : PrinterRegistry
  pub jobs : JobRegistry
  pub disk : Disk

unfoldable pub set_printer_reasons : AppState → String → PrinterReason → AppState
set_printer_reasons st name reasons = record st {
  printers = update_first (is_named name) (λ p. record p { reasons = reasons }) st.printers;
}

unfoldable pub set_printer_idle_named : AppState → String → AppState
unfolding set_printer_idle
set_printer_idle_named st name = record st {
  printers = update_first (is_named name) set_printer_idle st.printers;
}

unfoldable pub set_printer_processing_named : AppState → String → AppState
unfolding set_printer_processing
set_printer_processing_named st name = record st {
  printers = update_first (is_named name) set_printer_processing st.printers;
}

-- The second half of `persist`: a snapshot is written to the file.
abbrev pub write_state : Write → PersistedState → AppState → AppState
write_state write s st = record st { disk = write s st.disk }

-- `persist` as its caller awaits it, where no other task runs between the two halves.
unfoldable pub persist_state : Write → AppState → AppState
persist_state write st = write_state write (read_state st.printers) st

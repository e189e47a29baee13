-- ===== src/Server/Worker.antt =====
-- src/server.rs, `spawn_print_worker` and `sleep_cancelable`: the task that prints one job, as a machine
-- whose steps are the task's accesses to shared state. Other tasks run between two steps. Durations are
-- in milliseconds.
pub mod Interleaving
pub mod Known
pub mod Terminal
pub mod Cancel
pub mod Races
pub mod Retry
pub mod Recovery
use ipp_printer_app.Base.{
  Bool, Option, String, false, if◌then◌else◌, min, none, some, true, ℕ, ◌*◌, ◌-◌, ◌==◌,
}
use ipp_printer_app.Flags.Reason
use ipp_printer_app.Flags.Reason.{PrinterReason}
use ipp_printer_app.Job.{JobRecord, JobId, SystemTime, is_canceled, set_state, set_failure, cancel}
use ipp_printer_app.Job
use ipp_printer_app.Raster.{JobOutcome, JobFailure}
use ipp_printer_app.Server.{
  AppState, set_printer_reasons, set_printer_idle_named, set_printer_processing_named, write_state,
}
use ipp_printer_app.State.{PersistedState, Write, read_state}

-- `BACKOFF_MAX` and `SLICE`.
abbrev pub backoff_max : ℕ
backoff_max = 30000

abbrev pub slice : ℕ
slice = 250

-- What the task does next. At `save` it reads the registry of printers under its lock, and at `write_out` it writes what
-- it read to the file.
pub data Phase : Type 0 where
  mark_printer mark_job check call : Phase
  complete_reasons complete_idle complete_check complete_job : Phase
  fail_reasons fail_idle fail_job : JobFailure → Phase
  hold_reasons : PrinterReason → Phase
  hold_job : Phase
  sleep : ℕ → Phase
  after_loop cancel_reasons cancel_idle cancel_job : Phase
  save : Phase
  write_out : PersistedState → Phase
  finished : Phase

-- The task's own variables: the clone of the job record it was given, the queue name, the backoff, and
-- whether the hold was already logged.
pub record Worker : Type 0 where
  pub job : JobRecord
  pub name : String
  pub backoff : ℕ
  pub held : Bool
  pub phase : Phase

-- What the outside decides at a step: the clock, what the print callback resolves to, the file system.
pub record Input : Type 0 where
  pub now : SystemTime
  pub outcome : JobOutcome
  pub write : Write

-- `backoff_start` is the value of `IPP_PRINTER_APP_RETRY_MS`, when it parses.
abbrev pub backoff_start : Option ℕ → ℕ
backoff_start none = 2000
backoff_start (some ms) = ms

unfoldable pub spawn_print_worker : String → JobRecord → Option ℕ → Worker
spawn_print_worker name job retry_ms = record {
  job = job;
  name = name;
  backoff = min (backoff_start retry_ms) backoff_max;
  held = false;
  phase = mark_printer;
}

abbrev pub at : Phase → Worker → Worker
at p w = record w { phase = p }

-- Where an outcome of the callback leads.
abbrev pub after_call : JobOutcome → Worker → Worker
after_call JobOutcome.completed w = at complete_reasons w
after_call (JobOutcome.failed f) w = at (fail_reasons f) w
after_call (JobOutcome.device_unavailable reasons) w = record w {
  held = true;
  phase = hold_reasons reasons;
}

-- One look at the flag and one nap of `sleep_cancelable`, with `left` milliseconds to go.
abbrev pub sleep_step : ℕ → Bool → Worker → Worker
sleep_step left canceled w =
    if canceled
    then at after_loop w
    else if left == 0
    then record w { backoff = min (w.backoff * 2) backoff_max; phase = check }
    else at (sleep (left - min left slice)) w

unfoldable pub act : Phase → Input → Worker → AppState → Worker × AppState
act mark_printer i w st = (at mark_job w, set_printer_processing_named st w.name)
act mark_job i w st =
    (at check w, record st { jobs = set_state st.jobs w.job.id Job.processing i.now })
act check i w st = (if is_canceled w.job st.jobs then at after_loop w else at call w, st)
act call i w st = (after_call i.outcome w, st)
act complete_reasons i w st = (at complete_idle w, set_printer_reasons st w.name Reason.empty)
act complete_idle i w st = (at complete_check w, set_printer_idle_named st w.name)
act complete_check i w st =
    (if is_canceled w.job st.jobs then at after_loop w else at complete_job w, st)
act complete_job i w st =
    (at after_loop w, record st { jobs = set_state st.jobs w.job.id Job.completed i.now })
act (fail_reasons f) i w st = (at (fail_idle f) w, set_printer_reasons st w.name f.printer_reasons)
act (fail_idle f) i w st = (at (fail_job f) w, set_printer_idle_named st w.name)
act (fail_job f) i w st = (
  at after_loop w,
  record st { jobs = set_failure st.jobs w.job.id f.printer_reasons f.message i.now },
)
act (hold_reasons reasons) i w st = (at hold_job w, set_printer_reasons st w.name reasons)
act hold_job i w st = (
  at (sleep w.backoff) w,
  record st { jobs = set_state st.jobs w.job.id Job.processing_stopped i.now },
)
act (sleep left) i w st = (sleep_step left (is_canceled w.job st.jobs) w, st)
act after_loop i w st = (if is_canceled w.job st.jobs then at cancel_reasons w else at save w, st)
act cancel_reasons i w st = (at cancel_idle w, set_printer_reasons st w.name Reason.empty)
act cancel_idle i w st = (at cancel_job w, set_printer_idle_named st w.name)
act cancel_job i w st = (at save w, record st { jobs = (cancel st.jobs w.job.id i.now).0 })
act save i w st = (at (write_out (read_state st.printers)) w, st)
act (write_out s) i w st = (at finished w, write_state i.write s st)
act finished i w st = (at finished w, st)

unfoldable pub step : Input → Worker × AppState → Worker × AppState
unfolding act
step i (w, st) = act w.phase i w st

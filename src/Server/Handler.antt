-- ===== src/Server/Handler.antt =====
-- src/server.rs, `handle_ipp` and `ipp_handler`: one request against one printer. Between two accesses that
-- a handler makes to the shared state no other task runs here.
use ipp_printer_app.Base.{Bool, List, Option, Result, String, [], err, none, ok, some, ℕ, ◌∷◌}
use ipp_printer_app.Job.{
  load_flag, JobId, JobRecord, JobRegistry, JobState, SystemTime, create, get, jobs_for_printer,
  canceled,
}
use ipp_printer_app.Job
use ipp_printer_app.Printer.{PrinterConfig, PrinterRecord}
use ipp_printer_app.Ipp.{
  Request, Response, IppCrate, IppStatus, successful_ok, client_error_not_found,
}
use ipp_printer_app.Server.{AppState}
use ipp_printer_app.Server.Request.{extract_job_id, extract_identify_actions}

-- The arguments of `spawn_print_worker`.
pub record PrintTask : Type 0 where
  pub printer_name : String
  pub job : JobRecord
  pub payload : List ℕ
  pub copies : ℕ
  pub document_format : String
  pub print_quality : Option ℕ

-- What the print callback is told of the job; `cancel_flag` is the cell of the job's flag.
pub record JobContext : Type 0 where
  pub id : JobId
  pub printer_name : String
  pub cancel_flag : ℕ
  pub document_format : String
  pub print_quality : Option ℕ

-- The context that `spawn_print_worker` makes.
abbrev pub job_context : PrintTask → JobContext
job_context task = record {
  id = task.job.id;
  printer_name = task.printer_name;
  cancel_flag = task.job.cancel_flag;
  document_format = task.document_format;
  print_quality = task.print_quality;
}

-- `JobContext::is_canceled`.
abbrev pub context_is_canceled : JobContext → JobRegistry → Bool
context_is_canceled ctx r = load_flag ctx.cancel_flag r

pub data HttpStatus : Type 0 where
  bad_request not_found internal_server_error : HttpStatus

abbrev pub Failure : Type 0
Failure = HttpStatus × String

-- What a request does: the state that it leaves, the workers that it spawns, the printers that it asks to
-- identify themselves, and its answer.
pub record Reply : Type 0 where
  pub state : AppState
  pub spawned : List PrintTask
  pub identified : List (PrinterConfig × List String)
  pub answer : Result Failure Response

-- The crate that the handler calls, and the clocks: the time of day and `uptime_secs`.
pub record Env : Type 0 where
  pub crate : IppCrate
  pub now : SystemTime
  pub up : ℕ

abbrev pub or_internal : Result String Response → Result Failure Response
or_internal (ok r) = ok r
or_internal (err e) = err (internal_server_error, e)

abbrev pub reply : AppState → Result String Response → Reply
reply st r = record { state = st; spawned = []; identified = []; answer = or_internal r }

abbrev pub refuse : AppState → HttpStatus → String → Reply
refuse st status msg = record {
  state = st;
  spawned = [];
  identified = [];
  answer = err (status, msg);
}

abbrev pub plain : Env → AppState → ℕ → IppStatus → ℕ → Reply
plain env st version status request_id = reply st (env.crate.new_response version status request_id)

abbrev pub status_if_job : Option JobRecord → IppStatus
status_if_job none = client_error_not_found
status_if_job (some j) = successful_ok

unfoldable pub and_get : JobRegistry → Option JobId → Option JobRecord
unfolding get
and_get r none = none
and_get r (some id) = get r id

unfoldable pub close_job : Env → AppState → Request → Reply
unfolding extract_job_id and_get
close_job env st req =
    plain env st req.version (status_if_job (and_get st.jobs (extract_job_id req))) req.request_id

-- The loop over the snapshot that `jobs_for_printer` took.
unfoldable pub cancel_all : SystemTime → List JobRecord → JobRegistry → JobRegistry
unfolding Job.cancel
cancel_all now [] r = r
cancel_all now (j ∷ js) r = cancel_all now js (Job.cancel r j.id now).0

unfoldable pub cancel_my_jobs : Env → AppState → String → Request → Reply
unfolding cancel_all jobs_for_printer
cancel_my_jobs env st name req =
    plain env (record st { jobs = cancel_all env.now (jobs_for_printer st.jobs name) st.jobs })
      req.version successful_ok req.request_id

unfoldable pub identify_printer : Env → AppState → PrinterRecord → Request → Reply
unfolding extract_identify_actions
identify_printer env st rec req = record (plain env st req.version successful_ok req.request_id) {
  identified = (rec.config, extract_identify_actions env.crate req) ∷ [];
}

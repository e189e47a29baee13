-- ===== src/Job/Table.antt =====
-- src/job.rs: the registry as a table from job ids to what the server tells of a job, without the list, the addresses
-- of the cancel flags and the counter of the ids.
use ipp_printer_app.Base.{
  Bool, List, Option, String, [], false, if◌then◌else◌, length, none, some, suc, true, ℕ, ◌&&◌,
  ◌==◌, ◌∷◌,
}
use mathlib.Core.Option
use ipp_printer_app.Flags.Reason
use ipp_printer_app.Flags.Reason.{PrinterReason}
use ipp_printer_app.Job.{
  JobId, SystemTime, JobState, JobRecord, JobRegistry, pending, processing, processing_stopped,
  completed, canceled, aborted, is_terminal, is_none, get, is_canceled,
}
use ipp_printer_app.Job.History.{Op, creates, cancels, starts, holds, completes, fails}

-- A job as everyone sees it who holds its id; `raised` is its cancel flag.
pub record JobView : Type 0 where
  pub printer_name : String
  pub owner : String
  pub state : JobState
  pub reasons : PrinterReason
  pub message : String
  pub created_at : SystemTime
  pub completed_at : Option SystemTime
  pub raised : Bool

-- How many jobs were created, and the job of each id.
pub record JobTable : Type 0 where
  pub count : ℕ
  pub entry : JobId → Option JobView

abbrev pub seen : Bool → JobRecord → JobView
seen raised j = record {
  printer_name = j.printer_name;
  owner = j.owner;
  state = j.state;
  reasons = j.reasons;
  message = j.message;
  created_at = j.created_at;
  completed_at = j.completed_at;
  raised = raised;
}

abbrev pub view_of : JobRegistry → JobRecord → JobView
view_of r j = seen (is_canceled j r) j

abbrev pub view : JobRegistry → JobId → Option JobView
view r id = Option.map (view_of r) (get r id)

abbrev pub table : JobRegistry → JobTable
table r = record { count = length r.jobs; entry = view r }

-- Specification of the operations.
abbrev pub fresh_view : String → String → SystemTime → JobView
fresh_view name user now = record {
  printer_name = name;
  owner = user;
  state = pending;
  reasons = Reason.empty;
  message = "";
  created_at = now;
  completed_at = none;
  raised = false;
}

-- The first end of a job is its completion time.
abbrev pub enter_view : JobState → SystemTime → JobView → JobView
enter_view s now v = record v {
  state = s;
  completed_at = if is_terminal s && is_none v.completed_at then some now else v.completed_at;
}

abbrev pub fail_view : PrinterReason → String → SystemTime → JobView → JobView
fail_view reasons message now v = record v {
  state = aborted;
  reasons = reasons;
  message = message;
  completed_at = some now;
}

abbrev pub cancel_view : SystemTime → JobView → JobView
cancel_view now v =
    if is_terminal v.state
    then v
    else record v { state = canceled; completed_at = some now; raised = true }

abbrev pub amend : JobId → (JobView → JobView) → JobTable → JobTable
amend id f t = record t { entry = λ k. if id == k then Option.map f (t.entry k) else t.entry k }

abbrev pub table_op : Op → JobTable → JobTable
table_op (creates name user now) t = record {
  count = suc t.count;
  entry = λ k. if suc t.count == k then some (fresh_view name user now) else t.entry k;
}
table_op (cancels id now) t = amend id (cancel_view now) t
table_op (starts id now) t = amend id (enter_view processing now) t
table_op (holds id now) t = amend id (enter_view processing_stopped now) t
table_op (completes id now) t = amend id (enter_view completed now) t
table_op (fails id reasons message now) t = amend id (fail_view reasons message now) t

abbrev pub table_run : List Op → JobTable → JobTable
table_run [] t = t
table_run (op ∷ ops) t = table_run ops (table_op op t)

abbrev pub no_jobs : JobTable
no_jobs = record { count = 0; entry = λ id. none }

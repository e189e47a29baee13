-- ===== src/Job.antt =====
-- src/job.rs: the job registry. A method that locks `inner` is one atomic step on `JobRegistry`.
-- The `Arc<AtomicBool>` of a job is a cell of `flags`, and `cancel_flag` its address, so that the
-- clones that `create` and `get` hand out share it. `SystemTime::now()` is the argument `now`, in
-- nanoseconds from the Unix epoch.
pub mod Find
pub mod Ids
pub mod Updates
pub mod Invariant
pub mod Canceled
pub mod Views
pub mod History
pub mod Table
pub mod Refinement
use ipp_printer_app.Base.{
  ℕ, ◌+◌, ◌*◌, ◌/◌, ◌%◌, max, Bool, true, false, not, ◌&&◌, String, List, [], ◌∷◌, ◌++◌, Option,
  none, some, length, get_or, set, find, keep, update_first, ◌==◌, ◌=ˢ◌, if◌then◌else◌,
}
use ipp_printer_app.Base.Int.{ℤ, pos, negsuc, as_i32}
use ipp_printer_app.Flags.Reason
use ipp_printer_app.Flags.Reason.{PrinterReason}
use mathlib.Core.Option

abbrev pub JobId : Type 0
JobId = ℕ

abbrev pub SystemTime : Type 0
SystemTime = ℤ

pub data JobState : Type 0 where
  pending held processing processing_stopped canceled aborted completed : JobState

-- The discriminants of `#[repr(u32)]`.
abbrev pub job_state_code : JobState → ℕ
job_state_code pending = 3
job_state_code held = 4
job_state_code processing = 5
job_state_code processing_stopped = 6
job_state_code canceled = 7
job_state_code aborted = 8
job_state_code completed = 9

abbrev pub is_terminal : JobState → Bool
is_terminal canceled = true
is_terminal aborted = true
is_terminal completed = true
is_terminal _ = false

pub record JobRecord : Type 0 where
  pub id : JobId
  pub printer_name : String
  pub owner : String
  pub state : JobState
  pub reasons : PrinterReason
  pub message : String
  pub created_at : SystemTime
  pub completed_at : Option SystemTime
  pub cancel_flag : ℕ

-- `as_secs() as i32` of the time since the epoch; 0 before the epoch.
unfoldable pub secs_since_epoch : SystemTime → ℤ
secs_since_epoch (pos ns) = as_i32 (ns / 1000000000)
secs_since_epoch (negsuc ns) = pos 0

unfoldable pub created_secs : JobRecord → ℤ
unfolding secs_since_epoch
created_secs j = secs_since_epoch j.created_at

unfoldable pub completed_secs : JobRecord → Option ℤ
unfolding secs_since_epoch
completed_secs j = Option.map secs_since_epoch j.completed_at

pub record JobRegistry : Type 0 where
  pub next_id : ℕ
  pub jobs : List JobRecord
  pub flags : List Bool

-- `cancel_flag.load(..)`.
abbrev pub load_flag : ℕ → JobRegistry → Bool
load_flag address r = get_or r.flags address false

unfoldable pub is_canceled : JobRecord → JobRegistry → Bool
is_canceled j r = load_flag j.cancel_flag r

unfoldable pub new : JobRegistry
new = record { next_id = 1; jobs = []; flags = [] }

-- `next_id.wrapping_add(1).max(1)`: 0 is never an id.
unfoldable pub next_job_id : ℕ → ℕ
next_job_id n = max ((n + 1) % 4294967296) 1

unfoldable pub fresh_record : JobRegistry → String → String → SystemTime → JobRecord
fresh_record r name user now = record {
  id = r.next_id;
  printer_name = name;
  owner = user;
  state = pending;
  reasons = Reason.empty;
  message = "";
  created_at = now;
  completed_at = none;
  cancel_flag = length r.flags;
}

unfoldable pub create : JobRegistry → String → String → SystemTime → JobRegistry × JobRecord
unfolding fresh_record next_job_id
create r name user now =
    let rec = fresh_record r name user now in
    (
      record {
        next_id = next_job_id r.next_id;
        jobs = r.jobs ++ rec ∷ [];
        flags = r.flags ++ false ∷ [];
      },
      rec,
    )

abbrev pub has_id : JobId → JobRecord → Bool
has_id id j = j.id == id

unfoldable pub get : JobRegistry → JobId → Option JobRecord
get r id = find (has_id id) r.jobs

unfoldable pub jobs_for_printer : JobRegistry → String → List JobRecord
jobs_for_printer r name = keep (λ j. j.printer_name =ˢ name) r.jobs

abbrev pub is_none {ℓ} : {A : Type ℓ} → Option A → Bool
is_none none = true
is_none (some a) = false

-- What `set_state` writes to the record that it finds.
unfoldable pub enter_state : JobState → SystemTime → JobRecord → JobRecord
enter_state s now j = record j {
  state = s;
  completed_at = if is_terminal s && is_none j.completed_at then some now else j.completed_at;
}

unfoldable pub set_state : JobRegistry → JobId → JobState → SystemTime → JobRegistry
unfolding enter_state
set_state r id s now = record r { jobs = update_first (has_id id) (enter_state s now) r.jobs }

unfoldable pub fail_record : PrinterReason → String → SystemTime → JobRecord → JobRecord
fail_record reasons message now j = record j {
  state = aborted;
  reasons = reasons;
  message = message;
  completed_at = some now;
}

unfoldable pub set_failure : JobRegistry → JobId → PrinterReason → String → SystemTime → JobRegistry
unfolding fail_record
set_failure r id reasons message now = record r {
  jobs = update_first (has_id id) (fail_record reasons message now) r.jobs;
}

unfoldable pub cancel_record : SystemTime → JobRecord → JobRecord
cancel_record now j = record j { state = canceled; completed_at = some now }

-- `cancel` once the job `j` is found under the write lock.
unfoldable pub cancel_found : JobRegistry → JobRecord → SystemTime → JobRegistry × JobState
unfolding cancel_record
cancel_found r j now = if is_terminal j.state then (r, j.state) else (
  record r {
    jobs = update_first (has_id j.id) (cancel_record now) r.jobs;
    flags = set r.flags j.cancel_flag true;
  },
  canceled,
)

unfoldable pub cancel : JobRegistry → JobId → SystemTime → JobRegistry × Option JobState
unfolding cancel_found
cancel r id now = elim (find (has_id id) r.jobs) [
  | none ↦ (r, none)
  | some j ↦ ((cancel_found r j now).0, some (cancel_found r j now).1)
]

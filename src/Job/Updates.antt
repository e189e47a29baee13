-- ===== src/Job/Updates.antt =====
-- src/job.rs: what `set_state`, `set_failure` and `cancel` change, and what they leave.
use ipp_printer_app.Base.{
  inr, inl, Option-cases, arith, String, if◌then◌else◌, refl, some, ◌==◌, ◌≡◌,
}
use mathlib.Core.Option
use ipp_printer_app.Flags.Reason.{PrinterReason}
use ipp_printer_app.Job.{
  JobId, SystemTime, JobRecord, JobRegistry, JobState, canceled, is_terminal, get, enter_state,
  set_state, fail_record, set_failure, cancel_record, cancel_found, cancel,
}
use ipp_printer_app.Job.Find.{find-update_first, find-has_id}

pub get-set_state :
    (r : JobRegistry) (id other : JobId) (s : JobState) (now : SystemTime)
    → get (set_state r id s now) other
      ≡ (if id == other then Option.map (enter_state s now) (get r other) else get r other)
unfolding get set_state
get-set_state r id other s now = find-update_first id other (enter_state s now) r.jobs (λ j. refl)

pub get-set_failure :
    (r : JobRegistry) (id other : JobId) (reasons : PrinterReason) (message : String)
    (now : SystemTime)
    → get (set_failure r id reasons message now) other ≡ (
        if id == other
        then Option.map (fail_record reasons message now) (get r other)
        else get r other)
unfolding get set_failure
get-set_failure r id other reasons message now =
    find-update_first id other (fail_record reasons message now) r.jobs (λ j. refl)

-- What a cancel request makes of the job that it finds.
abbrev pub cancel_job : SystemTime → JobRecord → JobRecord
cancel_job now j = if is_terminal j.state then j else cancel_record now j

-- The state that a cancel request answers.
abbrev pub cancel_answer : JobRecord → JobState
cancel_answer j = if is_terminal j.state then j.state else canceled

get-cancel_found :
    (r : JobRegistry) (id other : JobId) (now : SystemTime) (j : JobRecord)
    → get r id ≡ some j
    → get (cancel_found r j now).0 other
      ≡ (if id == other then Option.map (cancel_job now) (get r other) else get r other)
unfolding get cancel_found
get-cancel_found r id other now j found = ground (
  arith,
  find-has_id id r.jobs j found,
  find-update_first j.id other (cancel_record now) r.jobs (λ j. refl),
)

-- `cancel` on every branch: an unknown id changes nothing and answers `None`; a terminal job is
-- answered with its state and left alone; any other becomes `Canceled` with the time stamped. No other
-- job is touched.
pub get-cancel :
    (r : JobRegistry) (id other : JobId) (now : SystemTime)
    → (get (cancel r id now).0 other
        ≡ (if id == other then Option.map (cancel_job now) (get r other) else get r other))
      × ((cancel r id now).1 ≡ Option.map cancel_answer (get r id))
unfolding cancel
get-cancel r id other now = elim (Option-cases (get r id)) [
  | inl missing ↦ unfold get in ground arith
  | inr (j, found) ↦
      let answer : (cancel_found r j now).1 ≡ cancel_answer j =
        unfold cancel_found in ground arith in
      (
        unfold get in ground (arith, get-cancel_found r id other now j found),
        unfold get in ground arith,
      )
]

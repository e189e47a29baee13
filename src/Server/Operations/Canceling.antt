-- ===== src/Server/Operations/Canceling.antt =====
-- src/server.rs: Cancel-Job and Cancel-My-Jobs.
use ipp_printer_app.Base.{
  false, String, Bool, All-map, All-keep, find, All, List, Option, Result, [], ap, arith, err, none,
  not, ok, some, true, ◌||◌, ◌∙◌, ◌∷◌, ◌≡◌,
}
use ipp_printer_app.Job.{
  JobId, JobRecord, JobRegistry, JobState, SystemTime, canceled, is_terminal, is_canceled, get,
  has_id, jobs_for_printer,
}
use ipp_printer_app.Job
use ipp_printer_app.Job.Updates.{get-cancel, cancel_answer}
use ipp_printer_app.Job.History.{is_canceled-cancel}
use ipp_printer_app.Job.Invariant.{IsValid}
use ipp_printer_app.Job.Views.{is_over, is_present, is_over-cancel}
use ipp_printer_app.Ipp.{
  Request, Response, IppStatus, IsFaithful, successful_ok, client_error_not_possible,
}
use ipp_printer_app.Server.{AppState}
use ipp_printer_app.Server.Request.{extract_job_id}
use ipp_printer_app.Server.Handler.{Env, Failure, cancel_all, cancel_my_jobs}
use ipp_printer_app.Server.Operations.{handle_cancel_job, cancel_named, cancel_status}

abbrev pub status_of : Result Failure Response → Option IppStatus
status_of (ok r) = some r.status
status_of (err e) = none

-- What the client is told of a cancellation, by the state of the job before it.
abbrev pub expected_status : JobState → IppStatus
expected_status Job.aborted = client_error_not_possible
expected_status Job.completed = client_error_not_possible
expected_status _ = successful_ok

status-answer : (j : JobRecord) → cancel_status (some (cancel_answer j)) ≡ expected_status j.state
status-answer j = ground arith

-- Cancel-Job for a job that exists: a completed or aborted job cannot be canceled and keeps its cancel flag; in any
-- other case the request succeeds, and the flag of a job that was not over is up.
pub handle_cancel_job-found :
    (env : Env) (st : AppState) (req : Request) (j : JobRecord)
    → IsFaithful env.crate
    → IsValid st.jobs
    → extract_job_id req ≡ some j.id
    → get st.jobs j.id ≡ some j
    → (status_of (handle_cancel_job env st req).answer ≡ some (expected_status j.state))
      × (is_canceled j (handle_cancel_job env st req).state.jobs
          ≡ (is_canceled j st.jobs || not (is_terminal j.state)))
unfolding handle_cancel_job cancel_named
handle_cancel_job-found env st req j faithful valid named found = rw named (
  rw (faithful.makes, (get-cancel st.jobs j.id j.id env.now).1, found) (ap some (status-answer j)),
  is_canceled-cancel st.jobs j.id j env.now valid found ∙ ground arith,
)

module _ (now : SystemTime) where
  is_over-cancel_all :
      (js : List JobRecord) (r : JobRegistry) (id : JobId)
      → is_over r id ≡ true
      → is_over (cancel_all now js r) id ≡ true
  unfolding cancel_all
  is_over-cancel_all [] r id h = h
  is_over-cancel_all (j ∷ js) r id h =
      is_over-cancel_all js _ id (ground (arith, is_over-cancel r id j.id now))

  is_present-cancel_one :
      (j : JobRecord) (r : JobRegistry) (id : JobId)
      → is_present r id ≡ true
      → is_present (Job.cancel r j.id now).0 id ≡ true
  is_present-cancel_one j r id h = ground (arith, (get-cancel r j.id id now).0)

  abbrev ArePresent : JobRegistry → List JobRecord → Type 0
  ArePresent r js = All (λ (j : JobRecord). is_present r j.id ≡ true) js

  All-cancel_all :
      (js : List JobRecord) (r : JobRegistry)
      → ArePresent r js
      → All (λ (j : JobRecord). is_over (cancel_all now js r) j.id ≡ true) js
  unfolding cancel_all
  All-cancel_all [] r h = tt
  All-cancel_all (j ∷ js) r h = (
    is_over-cancel_all js _ j.id (rw (is_over-cancel r j.id j.id now) (ground (arith, h.0))),
    All-cancel_all js _ (All-map js (λ k present. is_present-cancel_one j r k.id present) h.1),
  )

abbrev is_listed : JobId → List JobRecord → Bool
is_listed id js = elim (find (has_id id) js) [ none ↦ false | some j ↦ true ]

All-listed : (js : List JobRecord) → All (λ (j : JobRecord). is_listed j.id js ≡ true) js
All-listed [] = tt
All-listed (j ∷ js) =
    (ground arith, All-map js (λ k listed. ground (arith, listed)) (All-listed js))

-- Cancel-My-Jobs, whoever asks: every job of the printer is in a terminal state afterwards, also the jobs of other
-- users.
pub is_over-cancel_my_jobs :
    (env : Env) (st : AppState) (name : String) (req : Request)
    → All
        (λ (j : JobRecord). is_over (cancel_my_jobs env st name req).state.jobs j.id ≡ true)
        (jobs_for_printer st.jobs name)
unfolding cancel_my_jobs jobs_for_printer
is_over-cancel_my_jobs env st name req =
    All-cancel_all env.now _ st.jobs
      (All-keep _ _ st.jobs.jobs (unfold get in All-listed st.jobs.jobs))

-- ===== src/Job/Views.antt =====
-- src/job.rs: how a job looks to the task that holds its id: whether it is over, and which flag is its own.
use ipp_printer_app.Base.{
  Bool, Option, Option-cases, String, arith, false, if◌then◌else◌, inl, inr, none, some, true, ℕ,
  ◌&&◌, ◌==◌, ◌≡◌,
}
use mathlib.Core.Option
use ipp_printer_app.Flags.Reason.{PrinterReason}
use ipp_printer_app.Job.{
  JobId, SystemTime, JobRecord, JobRegistry, JobState, is_terminal, get, create, enter_state,
  set_state, fail_record, set_failure, cancel_record, cancel,
}
use ipp_printer_app.Job.Updates.{get-set_state, get-set_failure, get-cancel}
use ipp_printer_app.Job.Invariant.{IsValid, get-create}

-- The registry has the job, in a terminal state.
abbrev pub is_over : JobRegistry → JobId → Bool
is_over r id = elim (get r id) [ none ↦ false | some j ↦ is_terminal j.state ]

abbrev pub flag_of : JobRegistry → JobId → Option ℕ
flag_of r id = Option.map (λ (j : JobRecord). j.cancel_flag) (get r id)

abbrev pub is_present : JobRegistry → JobId → Bool
is_present r id = elim (get r id) [ none ↦ false | some j ↦ true ]

pub is_present-flag_of :
    (r : JobRegistry) (id a : ℕ) → flag_of r id ≡ some a → is_present r id ≡ true
is_present-flag_of r id a h = ground arith

module _ (r : JobRegistry) (other : JobId) where
  pub is_over-set_state :
      (id : JobId) (s : JobState) (now : SystemTime)
      → is_over (set_state r id s now) other
        ≡ (if id == other then is_present r other && is_terminal s else is_over r other)
  unfolding enter_state
  is_over-set_state id s now = ground (arith, get-set_state r id other s now)

  pub flag_of-set_state :
      (id : JobId) (s : JobState) (now : SystemTime)
      → flag_of (set_state r id s now) other ≡ flag_of r other
  unfolding enter_state
  flag_of-set_state id s now = ground (arith, get-set_state r id other s now)

  pub is_over-set_failure :
      (id : JobId) (reasons : PrinterReason) (message : String) (now : SystemTime)
      → is_over (set_failure r id reasons message now) other
        ≡ (if id == other then is_present r other else is_over r other)
  unfolding fail_record
  is_over-set_failure id reasons message now =
      ground (arith, get-set_failure r id other reasons message now)

  pub flag_of-set_failure :
      (id : JobId) (reasons : PrinterReason) (message : String) (now : SystemTime)
      → flag_of (set_failure r id reasons message now) other ≡ flag_of r other
  unfolding fail_record
  flag_of-set_failure id reasons message now =
      ground (arith, get-set_failure r id other reasons message now)

  pub is_over-cancel :
      (id : JobId) (now : SystemTime)
      → is_over (cancel r id now).0 other
        ≡ (if id == other then is_present r other else is_over r other)
  unfolding cancel_record
  is_over-cancel id now = ground (arith, get-cancel r id other now)

  pub flag_of-cancel :
      (id : JobId) (now : SystemTime) → flag_of (cancel r id now).0 other ≡ flag_of r other
  unfolding cancel_record
  flag_of-cancel id now = ground (arith, get-cancel r id other now)

  pub get-create_old :
      (name user : String) (now : SystemTime) (j : JobRecord)
      → IsValid r
      → get r other ≡ some j
      → get (create r name user now).0 other ≡ some j
  get-create_old name user now j v found = ground (arith, get-create r name user now other v)

  pub is_over-create :
      (name user : String) (now : SystemTime)
      → IsValid r
      → is_over r other ≡ true
      → is_over (create r name user now).0 other ≡ true
  is_over-create name user now v over = elim (Option-cases (get r other)) [
    | inl missing ↦ let no : false ≡ true = rw (missing, is_over) at over in cc no
    | inr (j, found) ↦
        rw (get-create_old name user now j v found, is_over) (rw (found, is_over) at over)
  ]

  pub flag_of-create :
      (name user : String) (now : SystemTime) (a : ℕ)
      → IsValid r
      → flag_of r other ≡ some a
      → flag_of (create r name user now).0 other ≡ some a
  flag_of-create name user now a v own = elim (Option-cases (get r other)) [
    | inl missing ↦ let no : none ≡ some a = rw missing at own in cc no
    | inr (j, found) ↦ rw (get-create_old name user now j v found) (rw found at own)
  ]

-- ===== src/System/Settling.antt =====
-- src/server.rs, `spawn_print_worker`: which jobs are between their start and their end, and which task brings each of
-- them to its end.
use ipp_printer_app.Base.{
  Bool, Option-cases, String, arith, false, if◌then◌else◌, inl, inr, none, not, some, true, ◌&&◌,
  ◌==◌, ◌≡◌,
}
use ipp_printer_app.Job.{
  JobId, JobState, JobRecord, JobRegistry, SystemTime, create, is_terminal, pending, get, load_flag,
  is_canceled, enter_state, fail_record, cancel_record, set_state, set_failure, cancel,
}
use ipp_printer_app.Job
use ipp_printer_app.Job.Invariant.{IsValid, get-create}
use ipp_printer_app.Job.Updates.{get-set_state, get-set_failure, get-cancel}
use ipp_printer_app.Job.Views.{is_over, is_present, get-create_old}
use ipp_printer_app.Job.History.{Op, creates, cancels, starts, holds, completes, fails, apply}

abbrev pub is_pending : JobState → Bool
is_pending pending = true
is_pending _ = false

-- The job has left `Pending` and is not in a terminal state.
abbrev pub is_unsettled : JobRegistry → JobId → Bool
is_unsettled r id = elim (get r id) [
  | none ↦ false
  | some j ↦ not (is_pending j.state) && not (is_terminal j.state)
]

abbrev pub has_begun : JobRegistry → JobId → Bool
has_begun r id = elim (get r id) [ none ↦ false | some j ↦ not (is_pending j.state) ]

pub begun-is_over :
    (r : JobRegistry) (id : JobId)
    → has_begun r id ≡ true
    → is_unsettled r id ≡ false
    → is_over r id ≡ true
begun-is_over r id begun settled = ground arith

-- A bound of `is_unsettled` after an operation, from its value before.
abbrev pub unsettled_by : Op → JobId → Bool → Bool
unsettled_by (creates name user now) id b = b
unsettled_by (cancels k now) id b = if k == id then false else b
unsettled_by (starts k now) id b = if k == id then true else b
unsettled_by (holds k now) id b = if k == id then true else b
unsettled_by (completes k now) id b = if k == id then false else b
unsettled_by (fails k reasons message now) id b = if k == id then false else b

pub unsettled-apply :
    (op : Op) (r : JobRegistry) (id : JobId)
    → IsValid r
    → is_unsettled (apply op r) id ≡ true
    → unsettled_by op id (is_unsettled r id) ≡ true
unfolding apply enter_state fail_record cancel_record create
unsettled-apply (creates name user now) r id v h = ground (arith, get-create r name user now id v)
unsettled-apply (cancels k now) r id v h = ground (arith, get-cancel r k id now)
unsettled-apply (starts k now) r id v h = ground (arith, get-set_state r k id Job.processing now)
unsettled-apply (holds k now) r id v h =
    ground (arith, get-set_state r k id Job.processing_stopped now)
unsettled-apply (completes k now) r id v h = ground (arith, get-set_state r k id Job.completed now)
unsettled-apply (fails k reasons message now) r id v h =
    ground (arith, get-set_failure r k id reasons message now)

begun-create :
    (r : JobRegistry) (name user : String) (now : SystemTime) (id : JobId)
    → IsValid r
    → has_begun r id ≡ true
    → has_begun (create r name user now).0 id ≡ true
begun-create r name user now id v begun = elim (Option-cases (get r id)) [
  | inl missing ↦ let no : false ≡ true = rw (missing, has_begun) at begun in cc no
  | inr (j, found) ↦
      rw (get-create_old r id name user now j v found, has_begun) (rw (found, has_begun) at begun)
]

-- No operation takes a job back to `Pending`.
pub begun-apply :
    (op : Op) (r : JobRegistry) (id : JobId)
    → IsValid r
    → has_begun r id ≡ true
    → has_begun (apply op r) id ≡ true
unfolding apply enter_state fail_record cancel_record
begun-apply (creates name user now) r id v begun = begun-create r name user now id v begun
begun-apply (cancels k now) r id v begun = ground (arith, get-cancel r k id now)
begun-apply (starts k now) r id v begun = ground (arith, get-set_state r k id Job.processing now)
begun-apply (holds k now) r id v begun =
    ground (arith, get-set_state r k id Job.processing_stopped now)
begun-apply (completes k now) r id v begun = ground (arith, get-set_state r k id Job.completed now)
begun-apply (fails k reasons message now) r id v begun =
    ground (arith, get-set_failure r k id reasons message now)

pub begun-starts :
    (r : JobRegistry) (id : JobId) (now : SystemTime)
    → is_present r id ≡ true
    → has_begun (apply (starts id now) r) id ≡ true
unfolding apply enter_state
begun-starts r id now here = ground (arith, get-set_state r id id Job.processing now)

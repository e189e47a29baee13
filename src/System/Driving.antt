-- ===== src/System/Driving.antt =====
-- src/server.rs, `spawn_print_worker`: what one step of a task does to the jobs, and which tasks still have their
-- job to bring to its end.
use ipp_printer_app.Base.{
  sym, ==_iff, Bool-cases, Bool, Option, arith, false, inl, inr, none, refl, some, true, ◌&&◌, ◌==◌,
  ◌≡◌, ◌⊎◌,
}
use mathlib.Core.Path.{subst}
use ipp_printer_app.Job.{JobId, JobRegistry, SystemTime, load_flag, is_canceled}
use ipp_printer_app.Job.Invariant.{IsValid}
use ipp_printer_app.Job.History.{Op, cancels, starts, holds, completes, fails, apply}
use ipp_printer_app.Raster.{JobOutcome}
use ipp_printer_app.Server.{
  AppState, set_printer_reasons, set_printer_idle_named, set_printer_processing_named,
  persist_state,
}
use ipp_printer_app.Server.Worker.{
  Phase, mark_printer, mark_job, check, call, complete_reasons, complete_idle, complete_check,
  complete_job, fail_reasons, fail_idle, fail_job, hold_reasons, hold_job, sleep, after_loop,
  cancel_reasons, cancel_idle, cancel_job, save, write_out, finished, Worker, Input, at, after_call,
  act, step,
}
use ipp_printer_app.System.Settling.{is_unsettled, unsettled_by, unsettled-apply}

-- Whether a task at this point will still write the end of its job, given its cancel flag.
abbrev pub is_driving : Phase → Bool → Bool
is_driving mark_printer up = false
is_driving mark_job up = false
is_driving after_loop up = up
is_driving save up = false
is_driving (write_out s) up = false
is_driving finished up = false
is_driving _ up = true

abbrev pub drives : JobRegistry → JobId → Worker → Bool
drives r id w = w.job.id == id && is_driving w.phase (load_flag w.job.cancel_flag r)

-- The task has set its job to `Processing`.
abbrev pub has_started : Phase → Bool
has_started mark_printer = false
has_started mark_job = false
has_started _ = true

-- The registry operation of a step, if there is one.
abbrev pub op_at : Phase → SystemTime → Worker → Option Op
op_at mark_job now w = some (starts w.job.id now)
op_at complete_job now w = some (completes w.job.id now)
op_at (fail_job f) now w = some (fails w.job.id f.printer_reasons f.message now)
op_at hold_job now w = some (holds w.job.id now)
op_at cancel_job now w = some (cancels w.job.id now)
op_at _ now w = none

abbrev pub apply_opt : Option Op → JobRegistry → JobRegistry
apply_opt none r = r
apply_opt (some op) r = apply op r

pub jobs-act :
    (p : Phase) (i : Input) (w : Worker) (st : AppState)
    → (act p i w st).1.jobs ≡ apply_opt (op_at p i.now w) st.jobs
unfolding act apply set_printer_reasons set_printer_idle_named set_printer_processing_named
    persist_state
jobs-act mark_printer i w st = refl
jobs-act _ i w st = refl

-- A job that is unsettled after a step is driven by the task after it, or was unsettled before and not driven by the task.
abbrev pub Kept : JobId → JobRegistry → Worker → JobRegistry → Worker → Type 0
Kept id r w r' w' =
    (drives r' id w' ≡ true) ⊎ ((drives r id w ≡ false) × (is_unsettled r id ≡ true))

module _ (i : Input) (w : Worker) (st : AppState) (valid : IsValid st.jobs) where
  -- A step that ends the job leaves it settled.
  settles :
      (op : Op)
      → is_unsettled (apply op st.jobs) w.job.id ≡ true
      → unsettled_by op w.job.id (is_unsettled st.jobs w.job.id) ≡ true
  settles op h = unsettled-apply op st.jobs w.job.id valid h

  act-Kept :
      (p : Phase)
      → is_unsettled (act p i w st).1.jobs w.job.id ≡ true
      → Kept w.job.id st.jobs (at p w) (act p i w st).1.jobs (act p i w st).0
  unfolding act is_canceled set_printer_processing_named persist_state apply
  act-Kept mark_printer h = inr (ground arith, h)
  act-Kept mark_job h = inl (ground arith)
  act-Kept check h = inl (ground arith)
  act-Kept call h = inl (called i.outcome)
    where
      called : (o : JobOutcome) → drives st.jobs w.job.id (after_call o w) ≡ true
      called JobOutcome.completed = ground arith
      called (JobOutcome.failed f) = ground arith
      called (JobOutcome.device_unavailable reasons) = ground arith
  act-Kept complete_reasons h = inl (ground arith)
  act-Kept complete_idle h = inl (ground arith)
  act-Kept complete_check h = inl (ground arith)
  act-Kept complete_job h = absurd (ground (arith, settles (completes w.job.id i.now) h))
  act-Kept (fail_reasons f) h = inl (ground arith)
  act-Kept (fail_idle f) h = inl (ground arith)
  act-Kept (fail_job f) h =
      absurd (ground (arith, settles (fails w.job.id f.printer_reasons f.message i.now) h))
  act-Kept (hold_reasons reasons) h = inl (ground arith)
  act-Kept hold_job h = inl (ground arith)
  act-Kept (sleep left) h = inl (ground arith)
  act-Kept after_loop h = elim (Bool-cases (load_flag w.job.cancel_flag st.jobs)) [
    | inl up ↦ inl (ground arith)
    | inr down ↦ inr (ground arith, ground arith)
  ]
  act-Kept cancel_reasons h = inl (ground arith)
  act-Kept cancel_idle h = inl (ground arith)
  act-Kept cancel_job h = absurd (ground (arith, settles (cancels w.job.id i.now) h))
  act-Kept save h = inr (ground arith, h)
  act-Kept (write_out s) h = inr (ground arith, h)
  act-Kept finished h = inr (ground arith, h)

  other-unsettled :
      (id : JobId) (p : Phase)
      → (w.job.id == id) ≡ false
      → is_unsettled (apply_opt (op_at p i.now w) st.jobs) id ≡ true
      → is_unsettled st.jobs id ≡ true
  unfolding apply
  other-unsettled id mark_job apart h =
      ground (arith, unsettled-apply (starts w.job.id i.now) st.jobs id valid h)
  other-unsettled id complete_job apart h =
      ground (arith, unsettled-apply (completes w.job.id i.now) st.jobs id valid h)
  other-unsettled id (fail_job f) apart h =
      ground (
        arith,
        unsettled-apply (fails w.job.id f.printer_reasons f.message i.now) st.jobs id valid h,
      )
  other-unsettled id hold_job apart h =
      ground (arith, unsettled-apply (holds w.job.id i.now) st.jobs id valid h)
  other-unsettled id cancel_job apart h =
      ground (arith, unsettled-apply (cancels w.job.id i.now) st.jobs id valid h)
  other-unsettled id _ apart h = h

  -- After a step, for any job.
  pub step-Kept :
      (id : JobId)
      → is_unsettled (step i (w, st)).1.jobs id ≡ true
      → Kept id st.jobs w (step i (w, st)).1.jobs (step i (w, st)).0
  unfolding step
  step-Kept id h = elim (Bool-cases (w.job.id == id)) [
    | inl mine ↦
        let same : w.job.id ≡ id = (==_iff w.job.id id).0 mine in
        subst (λ k. Kept k st.jobs w (act w.phase i w st).1.jobs (act w.phase i w st).0) same
          (act-Kept w.phase
            (subst (λ k. is_unsettled (act w.phase i w st).1.jobs k ≡ true) (sym same) h))
    | inr apart ↦ inr (
      ground arith,
      other-unsettled id w.phase apart
          (subst (λ r. is_unsettled r id ≡ true) (jobs-act w.phase i w st) h),
    )
  ]

-- ===== src/Server/Worker/Terminal.antt =====
-- src/server.rs, `spawn_print_worker`: whatever runs between the steps of the task, its job is over when it
-- ends.
use ipp_printer_app.Base.{
  Option, min, ◌-◌, String, ◌==◌, refl, false, arith, inl, inr, some, true, ℕ, ◌∙◌, ◌≡◌, ◌≢◌,
}
use ipp_printer_app.Job.{
  JobRecord, JobId, JobRegistry, SystemTime, is_canceled, set_state, set_failure, cancel, create,
  canceled, get, load_flag,
}
use ipp_printer_app.Job
use ipp_printer_app.Job.Canceled.{cancel-IsValid}
use ipp_printer_app.Job.Invariant.{IsValid, set_state-IsValid, set_failure-IsValid}
use ipp_printer_app.Job.Views.{
  is_over, flag_of, flag_of-set_state, flag_of-set_failure, flag_of-cancel,
}
use ipp_printer_app.Raster.{JobOutcome}
use ipp_printer_app.Server.{
  AppState, set_printer_reasons, set_printer_idle_named, set_printer_processing_named,
}
use ipp_printer_app.Server.Worker.{
  Phase, mark_printer, mark_job, check, call, complete_reasons, complete_idle, complete_check,
  complete_job, fail_reasons, fail_idle, fail_job, hold_reasons, hold_job, sleep, after_loop,
  cancel_reasons, cancel_idle, cancel_job, save, write_out, finished, Worker, Input, at, after_call,
  act, step, spawn_print_worker,
}
use ipp_printer_app.Server.Worker.Interleaving.{Run, here, other_step, own_step}
use ipp_printer_app.Server.Worker.Known.{
  Known, Holds, Others-Holds, choose-Holds, set_over, fail_over, cancel_over,
}

module _ (i : Input) (w : Worker) (st : AppState) (v : IsValid st.jobs)
    (mine : flag_of st.jobs w.job.id ≡ some w.job.cancel_flag) where
  -- A step that leaves the registry as it was.
  quiet :
      (p : Phase) (st' : AppState) → st'.jobs ≡ st.jobs → Known p w.job st.jobs → Holds (at p w) st'
  quiet p st' same k = record { valid = rw same v; own_flag = rw same mine; known = rw same k }

  -- A step that sets the job's state.
  state-Holds :
      (p : Phase) (s : Job.JobState)
      → s ≢ canceled
      → Known p w.job (set_state st.jobs w.job.id s i.now)
      → Holds (at p w) (record st { jobs = set_state st.jobs w.job.id s i.now })
  state-Holds p s live k = record {
    valid = set_state-IsValid st.jobs w.job.id s i.now live v;
    own_flag = flag_of-set_state st.jobs w.job.id w.job.id s i.now ∙ mine;
    known = k;
  }

  act-Holds : (p : Phase) → Known p w.job st.jobs → Holds (act p i w st).0 (act p i w st).1
  unfolding act set_printer_processing_named set_printer_reasons set_printer_idle_named
  act-Holds mark_printer k = quiet mark_job _ refl tt
  act-Holds mark_job k = state-Holds check Job.processing (λ e. cc) tt
  act-Holds check k =
      choose-Holds (is_canceled w.job st.jobs) (at after_loop w) (at call w) st
        (λ up. quiet after_loop st refl (inl up)) (λ down. quiet call st refl tt)
  act-Holds call k = called i.outcome
    where
      called : (o : JobOutcome) → Holds (after_call o w) st
      called JobOutcome.completed = quiet complete_reasons st refl tt
      called (JobOutcome.failed f) = quiet (fail_reasons f) st refl tt
      called (JobOutcome.device_unavailable reasons) = record {
        valid = v;
        own_flag = mine;
        known = tt;
      }
  act-Holds complete_reasons k = quiet complete_idle _ refl tt
  act-Holds complete_idle k = quiet complete_check _ refl tt
  act-Holds complete_check k =
      choose-Holds (is_canceled w.job st.jobs) (at after_loop w) (at complete_job w) st
        (λ up. quiet after_loop st refl (inl up)) (λ down. quiet complete_job st refl tt)
  act-Holds complete_job k =
      state-Holds after_loop Job.completed (λ e. cc)
        (inr (set_over st.jobs w.job.id w.job.cancel_flag Job.completed i.now refl mine))
  act-Holds (fail_reasons f) k = quiet (fail_idle f) _ refl tt
  act-Holds (fail_idle f) k = quiet (fail_job f) _ refl tt
  act-Holds (fail_job f) k = record {
    valid = set_failure-IsValid st.jobs w.job.id f.printer_reasons f.message i.now v;
    own_flag =
        flag_of-set_failure st.jobs w.job.id w.job.id f.printer_reasons f.message i.now ∙ mine;
    known =
        inr (fail_over st.jobs w.job.id w.job.cancel_flag f.printer_reasons f.message i.now mine);
  }
  act-Holds (hold_reasons reasons) k = quiet hold_job _ refl tt
  act-Holds hold_job k = state-Holds (sleep w.backoff) Job.processing_stopped (λ e. cc) tt
  act-Holds (sleep left) k =
      choose-Holds (is_canceled w.job st.jobs) (at after_loop w) _ st
        (λ up. quiet after_loop st refl (inl up))
        λ down.
          choose-Holds (left == 0) _ (at (sleep (left - min left 250)) w) st
            (λ over. record { valid = v; own_flag = mine; known = tt })
            (λ more. quiet (sleep (left - min left 250)) st refl tt)
  act-Holds after_loop k =
      choose-Holds (is_canceled w.job st.jobs) (at cancel_reasons w) (at save w) st
        (λ up. quiet cancel_reasons st refl tt) (λ down. quiet save st refl (settled k down))
    where
      settled :
          Known after_loop w.job st.jobs
          → is_canceled w.job st.jobs ≡ false
          → is_over st.jobs w.job.id ≡ true
      settled (inl up) down = cc
      settled (inr over) down = over
  act-Holds cancel_reasons k = quiet cancel_idle _ refl tt
  act-Holds cancel_idle k = quiet cancel_job _ refl tt
  act-Holds cancel_job k = record {
    valid = cancel-IsValid st.jobs w.job.id i.now v;
    own_flag = flag_of-cancel st.jobs w.job.id w.job.id i.now ∙ mine;
    known = cancel_over st.jobs w.job.id w.job.cancel_flag i.now mine;
  }
  act-Holds save k = quiet (write_out _) _ refl k
  act-Holds (write_out s) k = quiet finished _ refl k
  act-Holds finished k = quiet finished _ refl k

step-Holds :
    (i : Input) (w : Worker) (st : AppState)
    → Holds w st
    → Holds (step i (w, st)).0 (step i (w, st)).1
unfolding step
step-Holds i w st h = act-Holds i w st h.valid h.own_flag w.phase h.known

pub Run-Holds : {c d : Worker × AppState} → Holds c.0 c.1 → Run c d → Holds d.0 d.1
Run-Holds h here = h
Run-Holds h (own_step {d} r i) = step-Holds i d.0 d.1 (Run-Holds h r)
Run-Holds h (other_step {d} r o) = Others-Holds o (Run-Holds h r)

Known-finished :
    (p : Phase) (j : JobRecord) (r : JobRegistry)
    → p ≡ finished
    → Known p j r
    → is_over r j.id ≡ true
Known-finished finished j r e k = k
Known-finished _ j r e k = cc

pub act-job : (p : Phase) (i : Input) (w : Worker) (st : AppState) → (act p i w st).0.job ≡ w.job
unfolding act
act-job check i w st = ground arith
act-job call i w st = ground arith
act-job complete_check i w st = ground arith
act-job (sleep left) i w st = ground arith
act-job after_loop i w st = ground arith
act-job _ i w st = refl

pub Run-job : {c d : Worker × AppState} → Run c d → d.0.job ≡ c.0.job
unfolding step
Run-job here = refl
Run-job (own_step {d} r i) = act-job d.0.phase i d.0 d.1 ∙ Run-job r
Run-job (other_step r o) = Run-job r

-- A task is spawned for a job that the registry has, its cancel flag being that of the record. Whatever
-- registry calls and other writes run between its steps, as long as no other task drives the same job, the
-- job is in a terminal state once the task has ended, and the registry is valid.
pub spawn_print_worker-is_over :
    (name : String) (job : JobRecord) (retry_ms : Option ℕ) (st : AppState) (w : Worker)
    (st' : AppState)
    → IsValid st.jobs
    → flag_of st.jobs job.id ≡ some job.cancel_flag
    → Run (spawn_print_worker name job retry_ms, st) (w, st')
    → w.phase ≡ finished
    → (is_over st'.jobs job.id ≡ true) × IsValid st'.jobs
unfolding spawn_print_worker
spawn_print_worker-is_over name job retry_ms st w st' v mine r ended =
    let h : Holds w st' = Run-Holds (record { valid = v; own_flag = mine; known = tt }) r in
    let over : is_over st'.jobs w.job.id ≡ true =
      Known-finished w.phase w.job st'.jobs ended h.known in
    let one : w.job ≡ job = Run-job r in (rw one at over, h.valid)

-- ===== src/Server/Worker/Cancel.antt =====
-- src/server.rs, `spawn_print_worker`: how soon a task that prints heeds the cancel flag of its job.
use ipp_printer_app.Base.{ap, arith, suc, true, ℕ, ◌-◌, ◌≡◌, ◌≢◌, ◌≤◌}
use ipp_printer_app.Job.{JobRecord, is_canceled, set_state, set_failure}
use ipp_printer_app.Job.History.{load_flag-apply, load_flag-cancel}
use ipp_printer_app.Raster
use ipp_printer_app.Server.{
  AppState, set_printer_reasons, set_printer_idle_named, set_printer_processing_named,
}
use ipp_printer_app.Server.Worker.{
  Phase, mark_printer, mark_job, check, call, complete_reasons, complete_idle, complete_check,
  complete_job, fail_reasons, fail_idle, fail_job, hold_reasons, hold_job, sleep, after_loop,
  cancel_reasons, cancel_idle, cancel_job, save, write_out, finished, Worker, Input, after_call,
  act, step,
}
use ipp_printer_app.Server.Worker.Interleaving.{
  Run, here, own_step, other_step, Others, registry, elsewhere,
}

-- How many steps a task whose flag is up can still take.
abbrev pub distance : Phase → ℕ
distance finished = 0
distance (write_out s) = 1
distance save = 2
distance cancel_job = 3
distance cancel_idle = 4
distance cancel_reasons = 5
distance after_loop = 6
distance complete_job = 7
distance complete_check = 7
distance (fail_job f) = 7
distance check = 7
distance (sleep left) = 7
distance complete_idle = 8
distance (fail_idle f) = 8
distance hold_job = 8
distance mark_job = 8
distance complete_reasons = 9
distance (fail_reasons f) = 9
distance (hold_reasons reasons) = 9
distance mark_printer = 9
distance call = 10

unfoldable pub own_steps : {c d : Worker × AppState} → Run c d → ℕ
own_steps here = 0
own_steps (own_step r i) = suc (own_steps r)
own_steps (other_step r o) = own_steps r

after_call-distance : (o : Raster.JobOutcome) (w : Worker) → distance (after_call o w).phase ≤ 9
after_call-distance Raster.completed w = omega arith
after_call-distance (Raster.failed f) w = omega arith
after_call-distance (Raster.device_unavailable reasons) w = omega arith

act-distance :
    (p : Phase) (i : Input) (w : Worker) (st : AppState)
    → is_canceled w.job st.jobs ≡ true
    → distance (act p i w st).0.phase ≤ distance p - 1
unfolding act
act-distance check i w st up = rw up (omega arith)
act-distance call i w st up = after_call-distance i.outcome w
act-distance complete_check i w st up = rw up (omega arith)
act-distance (sleep left) i w st up = rw up (omega arith)
act-distance after_loop i w st up = rw up (omega arith)
act-distance _ i w st up = omega arith

-- The flag stays up over a step of the task itself.
act-flag :
    (p : Phase) (i : Input) (w : Worker) (st : AppState)
    → is_canceled w.job st.jobs ≡ true
    → is_canceled (act p i w st).0.job (act p i w st).1.jobs ≡ true
unfolding act is_canceled set_state set_failure set_printer_processing_named set_printer_reasons
    set_printer_idle_named
act-flag check i w st up = ground arith
act-flag call i w st up = ground arith
act-flag complete_check i w st up = ground arith
act-flag (sleep left) i w st up = ground arith
act-flag after_loop i w st up = ground arith
act-flag cancel_job i w st up = load_flag-cancel st.jobs w.job.id i.now w.job.cancel_flag up
act-flag _ i w st up = up

Others-flag :
    (j : JobRecord) {st st' : AppState}
    → Others j.id st st'
    → is_canceled j st.jobs ≡ true
    → is_canceled j st'.jobs ≡ true
unfolding is_canceled
Others-flag j {st} (registry op allowed room) up = load_flag-apply op st.jobs j.cancel_flag up
Others-flag j (elsewhere ps d) up = up

Run-flag :
    {c d : Worker × AppState}
    → is_canceled c.0.job c.1.jobs ≡ true
    → Run c d
    → is_canceled d.0.job d.1.jobs ≡ true
unfolding step
Run-flag up here = up
Run-flag up (own_step {d} r i) = act-flag d.0.phase i d.0 d.1 (Run-flag up r)
Run-flag up (other_step {d} r o) = Others-flag d.0.job o (Run-flag up r)

Run-distance :
    {c d : Worker × AppState}
    → is_canceled c.0.job c.1.jobs ≡ true
    → (r : Run c d) → distance d.0.phase ≤ distance c.0.phase - own_steps r
unfolding step own_steps
Run-distance up here = omega arith
Run-distance up (own_step {d} r i) =
    omega (arith, Run-distance up r, act-distance d.0.phase i d.0 d.1 (Run-flag up r))
Run-distance up (other_step r o) = Run-distance up r

distance-finished : (p : Phase) → distance p ≡ 0 → p ≡ finished
distance-finished p h = ground arith

distance-le_ten : (p : Phase) → distance p ≤ 10
distance-le_ten p = ground arith

distance-call : (p : Phase) → p ≢ call → distance p ≤ 9
distance-call p h = ground arith

-- Once the cancel flag of its job is up, a task that has taken ten steps of its own has ended, whatever the
-- callback and the other tasks did between.
pub canceled_worker_ends :
    {c d : Worker × AppState}
    → is_canceled c.0.job c.1.jobs ≡ true
    → (r : Run c d) → 10 ≤ own_steps r
    → d.0.phase ≡ finished
canceled_worker_ends {c} {d} up r long =
    distance-finished d.0.phase (omega (arith, Run-distance up r, distance-le_ten c.0.phase))

-- Once the cancel flag of its job is up, a task that is not about to start the print callback does not get to
-- start it, whatever the other tasks do between.
pub canceled_worker_no_call :
    {c d : Worker × AppState}
    → is_canceled c.0.job c.1.jobs ≡ true
    → c.0.phase ≢ call
    → Run c d
    → d.0.phase ≢ call
canceled_worker_no_call {c} {d} up before r at_call =
    absurd (omega (arith, Run-distance up r, distance-call c.0.phase before, ap distance at_call))

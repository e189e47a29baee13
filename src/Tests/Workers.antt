-- ===== src/Tests/Workers.antt =====
-- Checks of the print worker.
use ipp_printer_app.Base.{
  arith, ◌≤◌, ◌++◌, [], true, ◌∷◌, false, none, refl, some, suc, zero, ℕ, ◌≡◌,
}
use ipp_printer_app.Base.Int.{pos}
use ipp_printer_app.Flags.Reason
use ipp_printer_app.Job.{JobRegistry, is_canceled, canceled, aborted, get, set_state, cancel}
use ipp_printer_app.Job
use ipp_printer_app.Job.Invariant.{IsValid}
use ipp_printer_app.Job.Canceled.{cancel-IsValid}
use ipp_printer_app.Job.Views.{is_over, flag_of}
use ipp_printer_app.Raster.{JobOutcome, JobFailure}
use ipp_printer_app.Server.{
  AppState, set_printer_reasons, set_printer_idle_named, set_printer_processing_named,
}
use ipp_printer_app.State.{persist, write_ok}
use ipp_printer_app.Server.Worker.{
  Phase, sleep, fail_reasons, finished, Worker, Input, at, step, act, spawn_print_worker,
}
use ipp_printer_app.Server.Worker.Interleaving.{Run, here, own_step}
use ipp_printer_app.Server.Worker.Terminal.{spawn_print_worker-is_over}
use ipp_printer_app.Server.Worker.Cancel.{own_steps}
use ipp_printer_app.Server.Worker.Races.{state_of, run_alone, failed_after_cancel_aborts}
use ipp_printer_app.Server.Worker.Recovery.{
  Attempt, Ending, ending_inputs, inputs, spawned_job_prints,
}
use ipp_printer_app.Tests.{one_job, job, one_job-IsValid, server}

abbrev input : Input
input = record { now = pos 9; outcome = JobOutcome.completed; write = write_ok }

abbrev worker : Worker
worker = record {
  job = job;
  name = "labels";
  backoff = 2000;
  held = false;
  phase = Phase.mark_printer;
}

abbrev rounds : ℕ → Worker × AppState → Worker × AppState
rounds zero c = c
rounds (suc n) c = step input (rounds n c)

Run-rounds : (n : ℕ) (c : Worker × AppState) → Run c (rounds n c)
Run-rounds zero c = here
Run-rounds (suc n) c = own_step (Run-rounds n c) input

start : Worker × AppState
unfolding spawn_print_worker
start = (spawn_print_worker "labels" job none, server)

ends : (rounds 11 start).0.phase ≡ finished
unfolding start spawn_print_worker step act is_canceled set_state set_printer_processing_named
    set_printer_idle_named set_printer_reasons
ends = refl

job_flag : flag_of one_job 1 ≡ some 0
unfolding get
job_flag = refl

spawn_print_worker-is_over_example :
    (is_over (rounds 11 start).1.jobs 1 ≡ true) × IsValid (rounds 11 start).1.jobs
unfolding start
spawn_print_worker-is_over_example =
    spawn_print_worker-is_over "labels" job none server (rounds 11 start).0 (rounds 11 start).1
      one_job-IsValid job_flag (Run-rounds 11 start) ends

-- The job of the registry, canceled while its worker waits.
abbrev canceled_jobs : JobRegistry
canceled_jobs = record {
  next_id = 2;
  jobs = record job { state = canceled; completed_at = some (pos 3) } ∷ [];
  flags = true ∷ [];
}

abbrev canceled_server : AppState
canceled_server = record server { jobs = canceled_jobs }

abbrev waiting : Worker × AppState
waiting = (at (sleep 500) worker, canceled_server)

up : is_canceled job canceled_jobs ≡ true
unfolding is_canceled
up = refl

steps : own_steps (Run-rounds 9 waiting) ≡ 9
unfolding own_steps Run-rounds
steps = refl

down : is_canceled job one_job ≡ false
unfolding is_canceled
down = refl

abbrev jammed : JobFailure
jammed = record { printer_reasons = Reason.media_jam; message = "jam" }

-- The worker of a job that was canceled while its callback ran, which then failed.
abbrev failing : Worker × AppState
failing = (at (fail_reasons jammed) worker, canceled_server)

canceled_jobs-IsValid : IsValid canceled_jobs
unfolding Job.cancel get
canceled_jobs-IsValid = cancel-IsValid one_job 1 (pos 3) one_job-IsValid

canceled_flag : flag_of canceled_jobs 1 ≡ some 0
unfolding get
canceled_flag = refl

long : 10 ≤ own_steps (Run-rounds 10 failing)
unfolding own_steps Run-rounds
long = omega arith

failed_after_cancel_aborts_example :
    ((rounds 10 failing).0.phase ≡ finished)
    × (state_of (rounds 10 failing).1.jobs 1 ≡ some aborted)
failed_after_cancel_aborts_example =
    failed_after_cancel_aborts jammed canceled_jobs-IsValid canceled_flag refl up
      (Run-rounds 10 failing) long

abbrev unreachable : Attempt
unreachable = record {
  reasons = Reason.offline;
  looks = input;
  calls = record input { outcome = JobOutcome.device_unavailable Reason.offline };
  tells = input;
  holds = input;
  naps = input ∷ input ∷ [];
}

abbrev prints : Ending
prints = record {
  looks = input;
  calls = input;
  clears = input;
  idles = input;
  looks_again = input;
  completes = input;
  leaves = input;
  saves = input;
  writes = input;
}

pending_job : state_of server.jobs 1 ≡ some Job.pending
unfolding get
pending_job = refl

spawned_job_prints_example :
    let (w', st') =
      run_alone
        (input ∷ input ∷ inputs (unreachable ∷ []) ++ ending_inputs prints)
        (spawn_print_worker "labels" job (some 200), server) in
    (w'.phase ≡ finished)
    × (state_of st'.jobs 1 ≡ some Job.completed)
    × (st'.disk ≡ persist write_ok st'.printers server.disk)
spawned_job_prints_example =
    spawned_job_prints input input (unreachable ∷ []) prints "labels" job (some 200) server
      Job.pending down pending_job (refl, refl, tt) refl

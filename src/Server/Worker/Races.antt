-- ===== src/Server/Worker/Races.antt =====
-- src/server.rs, `spawn_print_worker`: what the task does to a job that was already over.
use ipp_printer_app.Base.{
  ℕ, ◌≤◌, Bool, true, false, if◌then◌else◌, sym, arith, ap, List, Option, [], some, ◌∷◌, ◌≡◌,
}
use mathlib.Core.Option
use ipp_printer_app.Job.{
  JobRecord, JobId, JobRegistry, JobState, SystemTime, is_canceled, aborted, get,
}
use ipp_printer_app.Job
use ipp_printer_app.Job.Updates.{get-set_state, get-set_failure, get-cancel}
use ipp_printer_app.Job.History.{Op, creates, cancels, starts, holds, completes, fails, apply}
use ipp_printer_app.Job.Invariant.{IsValid, get-create}
use ipp_printer_app.Job.Views.{flag_of}
use mathlib.Core.Path.{subst}
use ipp_printer_app.Raster.{JobFailure}
use ipp_printer_app.Server.{AppState, set_printer_reasons, set_printer_idle_named}
use ipp_printer_app.Server.Worker.{
  Phase, mark_job, fail_reasons, fail_idle, fail_job, after_loop, cancel_reasons, cancel_idle,
  cancel_job, save, write_out, finished, Worker, Input, at, act, step,
}
use ipp_printer_app.Server.Worker.Interleaving.{
  Run, here, own_step, other_step, Others, Permitted, elsewhere, registry,
}
use ipp_printer_app.Server.Worker.Known.{Holds, Known}
use ipp_printer_app.Server.Worker.Terminal.{Run-Holds, Run-job}
use ipp_printer_app.Server.Worker.Cancel.{own_steps, canceled_worker_ends}

-- The state of a job, as `Get-Job-Attributes` reports it.
abbrev pub state_of : JobRegistry → JobId → Option JobState
state_of r id = Option.map (λ (j : JobRecord). j.state) (get r id)

-- The task alone, over a list of inputs.
unfoldable pub run_alone : List Input → Worker × AppState → Worker × AppState
run_alone [] c = c
run_alone (i ∷ is) c = run_alone is (step i c)

pub step-at :
    (p : Phase) (i : Input) (w : Worker) (st : AppState)
    → w.phase ≡ p
    → step i (w, st) ≡ act p i w st
unfolding step
step-at p i w st e = ap (λ q. act q i w st) e

-- A task spawned for a job in any state, a terminal one included, puts it back to `Processing`: the registry
-- does transition out of a terminal state.
pub mark_job-reopens :
    (w : Worker) (st : AppState) (i : Input) (s : JobState)
    → w.phase ≡ mark_job
    → state_of st.jobs w.job.id ≡ some s
    → state_of (step i (w, st)).1.jobs w.job.id ≡ some Job.processing
unfolding act
mark_job-reopens w st i s starting found = rw (step-at mark_job i w st starting) (
    unfold Job.enter_state in
    ground (arith, get-set_state st.jobs w.job.id w.job.id Job.processing i.now))

-- Nothing that another task may do takes a job out of `Aborted`.
aborted-apply :
    (op : Op) (id : JobId) (r : JobRegistry)
    → Permitted id op
    → IsValid r
    → state_of r id ≡ some aborted
    → state_of (apply op r) id ≡ some aborted
unfolding apply Job.enter_state Job.fail_record Job.cancel_record
aborted-apply (creates name user now) id r p v h = ground (arith, get-create r name user now id v)
aborted-apply (cancels k now) id r p v h = ground (arith, get-cancel r k id now)
aborted-apply (starts k now) id r p v h = ground (arith, get-set_state r k id Job.processing now)
aborted-apply (holds k now) id r p v h =
    ground (arith, get-set_state r k id Job.processing_stopped now)
aborted-apply (completes k now) id r p v h = ground (arith, get-set_state r k id Job.completed now)
aborted-apply (fails k reasons message now) id r p v h =
    ground (arith, get-set_failure r k id reasons message now)

-- A task at one of the steps after a failure of the callback: from the record of the failure on, its job is aborted.
abbrev Fails : Phase → JobRecord → JobRegistry → Type 0
Fails (fail_reasons f) j r = Unit
Fails (fail_idle f) j r = Unit
Fails (fail_job f) j r = Unit
Fails after_loop j r = state_of r j.id ≡ some aborted
Fails cancel_reasons j r = state_of r j.id ≡ some aborted
Fails cancel_idle j r = state_of r j.id ≡ some aborted
Fails cancel_job j r = state_of r j.id ≡ some aborted
Fails save j r = state_of r j.id ≡ some aborted
Fails (write_out c) j r = state_of r j.id ≡ some aborted
Fails finished j r = state_of r j.id ≡ some aborted
Fails _ j r = ⊥

set_failure-aborted :
    (r : JobRegistry) (id a : ℕ) (f : JobFailure) (now : SystemTime)
    → flag_of r id ≡ some a
    → state_of (Job.set_failure r id f.printer_reasons f.message now) id ≡ some aborted
unfolding Job.fail_record
set_failure-aborted r id a f now mine =
    ground (arith, get-set_failure r id id f.printer_reasons f.message now)

cancel-aborted :
    (r : JobRegistry) (id : JobId) (now : SystemTime)
    → state_of r id ≡ some aborted
    → state_of (Job.cancel r id now).0 id ≡ some aborted
unfolding Job.cancel_record
cancel-aborted r id now h = ground (arith, get-cancel r id id now)

if-Fails :
    (b : Bool) (p q : Phase) (w : Worker) (r : JobRegistry)
    → Fails p w.job r
    → Fails q w.job r
    → Fails (if b then at p w else at q w).phase (if b then at p w else at q w).job r
if-Fails true p q w r h k = h
if-Fails false p q w r h k = k

act-Fails :
    (p : Phase) (i : Input) (w : Worker) (st : AppState)
    → flag_of st.jobs w.job.id ≡ some w.job.cancel_flag
    → Fails p w.job st.jobs
    → Fails (act p i w st).0.phase (act p i w st).0.job (act p i w st).1.jobs
unfolding act set_printer_reasons set_printer_idle_named
act-Fails (fail_reasons f) i w st mine h = tt
act-Fails (fail_idle f) i w st mine h = tt
act-Fails (fail_job f) i w st mine h =
    set_failure-aborted st.jobs w.job.id w.job.cancel_flag f i.now mine
act-Fails after_loop i w st mine h =
    if-Fails (is_canceled w.job st.jobs) cancel_reasons save w st.jobs h h
act-Fails cancel_reasons i w st mine h = h
act-Fails cancel_idle i w st mine h = h
act-Fails cancel_job i w st mine h = cancel-aborted st.jobs w.job.id i.now h
act-Fails save i w st mine h = h
act-Fails (write_out c) i w st mine h = h
act-Fails finished i w st mine h = h
act-Fails _ i w st mine h = absurd h

Fails-apply :
    (op : Op) (p : Phase) (j : JobRecord) (r : JobRegistry)
    → Permitted j.id op
    → IsValid r
    → Fails p j r
    → Fails p j (apply op r)
Fails-apply op (fail_reasons f) j r ok_ v h = tt
Fails-apply op (fail_idle f) j r ok_ v h = tt
Fails-apply op (fail_job f) j r ok_ v h = tt
Fails-apply op after_loop j r ok_ v h = aborted-apply op j.id r ok_ v h
Fails-apply op cancel_reasons j r ok_ v h = aborted-apply op j.id r ok_ v h
Fails-apply op cancel_idle j r ok_ v h = aborted-apply op j.id r ok_ v h
Fails-apply op cancel_job j r ok_ v h = aborted-apply op j.id r ok_ v h
Fails-apply op save j r ok_ v h = aborted-apply op j.id r ok_ v h
Fails-apply op (write_out c) j r ok_ v h = aborted-apply op j.id r ok_ v h
Fails-apply op finished j r ok_ v h = aborted-apply op j.id r ok_ v h
Fails-apply op _ j r ok_ v h = absurd h

Others-Fails :
    (p : Phase) (j : JobRecord) {st st' : AppState}
    → Others j.id st st'
    → IsValid st.jobs
    → Fails p j st.jobs
    → Fails p j st'.jobs
Others-Fails p j {st} (registry op allowed room) v h = Fails-apply op p j st.jobs allowed v h
Others-Fails p j (elsewhere ps d) v h = h

Run-Fails :
    {c d : Worker × AppState}
    → Holds c.0 c.1
    → Fails c.0.phase c.0.job c.1.jobs
    → Run c d
    → Fails d.0.phase d.0.job d.1.jobs
unfolding step
Run-Fails k h here = h
Run-Fails k h (own_step {d} r i) =
    act-Fails d.0.phase i d.0 d.1 (Run-Holds k r).own_flag (Run-Fails k h r)
Run-Fails k h (other_step {d} r o) =
    Others-Fails d.0.phase d.0.job o (Run-Holds k r).valid (Run-Fails k h r)

-- A cancel that lands while the callback runs is lost if the callback then fails. In a valid registry that has the job
-- of a task, in any state, `Canceled` included, with the cancel flag that the task knows, and that flag up: once the
-- callback has reported a failure, whatever registry calls and other writes run between the steps of the task, as long
-- as no other task drives the same job, the task has ended after ten steps of its own, with the job `Aborted`.
pub failed_after_cancel_aborts :
    {c d : Worker × AppState} (f : JobFailure)
    → IsValid c.1.jobs
    → flag_of c.1.jobs c.0.job.id ≡ some c.0.job.cancel_flag
    → c.0.phase ≡ fail_reasons f
    → is_canceled c.0.job c.1.jobs ≡ true
    → (r : Run c d) → 10 ≤ own_steps r
    → (d.0.phase ≡ finished) × (state_of d.1.jobs c.0.job.id ≡ some aborted)
failed_after_cancel_aborts {c} {d} f v mine failing up r long =
    let ended : d.0.phase ≡ finished = canceled_worker_ends up r long in
    let holds : Holds c.0 c.1 = record {
      valid = v;
      own_flag = mine;
      known = subst (λ p. Known p c.0.job c.1.jobs) (sym failing) tt;
    } in
    let fails : Fails d.0.phase d.0.job d.1.jobs =
      Run-Fails holds (subst (λ p. Fails p c.0.job c.1.jobs) (sym failing) tt) r in
    let last : state_of d.1.jobs d.0.job.id ≡ some aborted =
      subst (λ p. Fails p d.0.job d.1.jobs) ended fails in
    (ended, subst (λ j. state_of d.1.jobs j.id ≡ some aborted) (Run-job r) last)

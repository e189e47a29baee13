-- ===== src/System/Projection.antt =====
-- src/server.rs, `spawn_print_worker`: how the running server looks to one of its tasks.
use ipp_printer_app.Base.{
  All, List, Option, String, [], all, ap, arith, length, none, refl, some, suc, sym, true, zero, ℕ,
  ◌∷◌, ◌≡◌, ◌≢◌, ◌≤◌,
}
use mathlib.Core.Path.{subst}
use ipp_printer_app.Job.{JobId, JobRegistry}
use ipp_printer_app.Job.Invariant.{HasRoom}
use ipp_printer_app.Job.History.{Op, creates, cancels, apply, run, length-apply}
use ipp_printer_app.Server.{
  AppState, set_printer_reasons, set_printer_idle_named, set_printer_processing_named,
  persist_state,
}
use ipp_printer_app.Server.Dispatch.Frame.{is_request_op}
use ipp_printer_app.Server.Worker.{
  Phase, mark_printer, mark_job, complete_job, fail_job, hold_job, cancel_job, Worker, Input, act,
  step,
}
use ipp_printer_app.Server.Worker.Cancel.{own_steps}
use ipp_printer_app.Server.Worker.Interleaving.{Run, other_step, registry, elsewhere, Permitted}
use ipp_printer_app.System.{work_at}
use ipp_printer_app.System.Driving.{op_at, apply_opt, jobs-act}
use ipp_printer_app.System.Evolving.{length-run}

abbrev PermittedOpt : JobId → Option Op → Type 0
PermittedOpt id none = Unit
PermittedOpt id (some op) = Permitted id op

-- What other tasks make of the shared state in one step, seen by the task of job `id`.
pub record Moves (id : JobId) (st st' : AppState) : Type 0 where
  pub host : st'.host ≡ st.host
  pub port : st'.port ≡ st.port
  pub op : Option Op
  pub permitted : PermittedOpt id op
  pub jobs : st'.jobs ≡ apply_opt op st.jobs

-- A task gets from `c` to `d` among the other tasks, with so many steps of its own.
abbrev pub Sees : Worker × AppState → Worker × AppState → ℕ → Type 0
Sees c d n = (r : Run c d) × (own_steps r ≡ n)

-- A step that writes no job.
abbrev pub unmoved :
    {id : JobId} {st st' : AppState}
    → st'.host ≡ st.host
    → st'.port ≡ st.port
    → st'.jobs ≡ st.jobs
    → Moves id st st'
unmoved host port jobs = record { host = host; port = port; op = none; permitted = tt; jobs = jobs }

Sees-op :
    {c : Worker × AppState} (w : Worker) (st : AppState) (n : ℕ) (op : Option Op)
    → PermittedOpt w.job.id op
    → HasRoom st.jobs
    → Sees c (w, st) n
    → Sees c (w, record st { jobs = apply_opt op st.jobs }) n
unfolding own_steps
Sees-op w st n none allowed room h = h
Sees-op w st n (some op) allowed room (r, steps) = (other_step r (registry op allowed room), steps)

same_state :
    (st st' : AppState) (jobs : JobRegistry)
    → st'.host ≡ st.host
    → st'.port ≡ st.port
    → st'.jobs ≡ jobs
    → record st { jobs = jobs; printers = st'.printers; disk = st'.disk } ≡ st'
same_state st st' jobs host port same = λ i. record {
  host = sym host i;
  port = sym port i;
  printers = st'.printers;
  jobs = sym same i;
  disk = st'.disk;
}

length-apply_opt : (o : Option Op) (r : JobRegistry) → length r.jobs ≤ length (apply_opt o r).jobs
length-apply_opt none r = omega arith
length-apply_opt (some op) r = omega (arith, length-apply op r)

pub Sees-Moves :
    {c : Worker × AppState} (w : Worker) (st st' : AppState) (n : ℕ)
    → Moves w.job.id st st'
    → HasRoom st'.jobs
    → Sees c (w, st) n
    → Sees c (w, st') n
unfolding own_steps
Sees-Moves {c} w st st' n m room h =
    let before : HasRoom st.jobs =
      omega
        (arith, length-apply_opt m.op st.jobs, ap (λ (r : JobRegistry). length r.jobs) m.jobs) in
    let (r, steps) = Sees-op w st n m.op m.permitted before h in
    subst (λ x. Sees c (w, x) n) (same_state st st' (apply_opt m.op st.jobs) m.host m.port m.jobs)
      (other_step r (elsewhere st'.printers st'.disk), steps)

Permitted-request_op :
    (name : String) (id : JobId) (op : Op) → is_request_op name op ≡ true → Permitted id op
Permitted-request_op name id (creates printer user now) h = tt
Permitted-request_op name id (cancels k now) h = tt
Permitted-request_op name id _ h = cc h

-- The operations of a request, one after the other.
pub Sees-run :
    {c : Worker × AppState} (name : String) (w : Worker) (ops : List Op) (st : AppState) (n : ℕ)
    → all (is_request_op name) ops ≡ true
    → HasRoom (run st.jobs ops)
    → Sees c (w, st) n
    → Sees c (w, record st { jobs = run st.jobs ops }) n
unfolding run own_steps
Sees-run name w [] st n allowed room h = h
Sees-run name w (op ∷ ops) st n allowed room (r, steps) =
    let first : Permitted w.job.id op = Permitted-request_op name w.job.id op (ground arith) in
    let before : HasRoom st.jobs =
      omega (arith, length-run (apply op st.jobs) ops, length-apply op st.jobs) in
    Sees-run name w ops (record st { jobs = apply op st.jobs }) n (ground arith) room
      (other_step r (registry op first before), steps)

Permitted-op_at :
    (id : JobId) (p : Phase) (i : Input) (v : Worker)
    → v.job.id ≢ id
    → PermittedOpt id (op_at p i.now v)
Permitted-op_at id mark_job i v apart = apart
Permitted-op_at id complete_job i v apart = apart
Permitted-op_at id (fail_job f) i v apart = apart
Permitted-op_at id hold_job i v apart = apart
Permitted-op_at id cancel_job i v apart = tt
Permitted-op_at id _ i v apart = tt

act-frame :
    (p : Phase) (i : Input) (v : Worker) (st : AppState)
    → ((act p i v st).1.host ≡ st.host) × ((act p i v st).1.port ≡ st.port)
unfolding act set_printer_reasons set_printer_idle_named set_printer_processing_named persist_state
act-frame mark_printer i v st = (refl, refl)
act-frame _ i v st = (refl, refl)

-- A step of a task of another job.
pub step-Moves :
    (id : JobId) (i : Input) (v : Worker) (st : AppState)
    → v.job.id ≢ id
    → Moves id st (step i (v, st)).1
unfolding step
step-Moves id i v st apart = record {
  host = (act-frame v.phase i v st).0;
  port = (act-frame v.phase i v st).1;
  op = op_at v.phase i.now v;
  permitted = Permitted-op_at id v.phase i v apart;
  jobs = jobs-act v.phase i v st;
}

pub work_at-Moves :
    (id : JobId) (j : ℕ) (i : Input) (ws : List Worker) (st : AppState)
    → All (λ (v : Worker). v.job.id ≢ id) ws
    → Moves id st (work_at j i ws st).1
unfolding work_at
work_at-Moves id j i [] st apart = unmoved refl refl refl
work_at-Moves id zero i (v ∷ ws) st apart = step-Moves id i v st apart.0
work_at-Moves id (suc j) i (v ∷ ws) st apart = work_at-Moves id j i ws st apart.1

-- No other worker has the job.
abbrev pub IsAlone : ℕ → JobId → List Worker → Type 0
IsAlone k id [] = Unit
IsAlone zero id (w ∷ ws) = All (λ (v : Worker). v.job.id ≢ id) ws
IsAlone (suc k) id (w ∷ ws) = (w.job.id ≢ id) × IsAlone k id ws

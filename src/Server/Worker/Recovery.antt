-- ===== src/Server/Worker/Recovery.antt =====
-- src/server.rs, `spawn_print_worker`: a job that waits for its device is printed when the device is back.
use ipp_printer_app.Base.{
  String, List, Option, [], ap, arith, false, if◌then◌else◌, length, min, refl, some, sym, true, ℕ,
  ◌*◌, ◌++◌, ◌+◌, ◌/◌, ◌∙◌, ◌∷◌, ◌≡◌,
}
use mathlib.Core.List.{append_assoc}
use mathlib.Core.Path.{subst}
use ipp_printer_app.Flags.Reason
use ipp_printer_app.Flags.Reason.{PrinterReason}
use ipp_printer_app.Job.{
  JobId, JobRecord, JobRegistry, JobState, SystemTime, is_canceled, load_flag,
}
use ipp_printer_app.Job
use ipp_printer_app.Job.Updates.{get-set_state}
use ipp_printer_app.Raster.{JobOutcome}
use ipp_printer_app.State.{Disk, persist}
use ipp_printer_app.Server.{
  AppState, persist_state, set_printer_idle_named, set_printer_processing_named,
  set_printer_reasons,
}
use ipp_printer_app.Server.Worker.{
  Input, Worker, act, after_call, after_loop, at, backoff_max, call, cancel_reasons, check,
  complete_job, finished, save, backoff_start, spawn_print_worker, step,
}
use ipp_printer_app.Server.Worker.Races.{run_alone, state_of}
use ipp_printer_app.Server.Worker.Retry.{sleep_rests}

-- An attempt that finds the device unavailable: the look at the flag, the call, the two steps of the hold, and the
-- naps of the wait.
pub record Attempt : Type 0 where
  pub reasons : PrinterReason
  pub looks : Input
  pub calls : Input
  pub tells : Input
  pub holds : Input
  pub naps : List Input

abbrev pub attempt_inputs : Attempt → List Input
attempt_inputs t = t.looks ∷ t.calls ∷ t.tells ∷ t.holds ∷ t.naps

abbrev pub inputs : List Attempt → List Input
inputs [] = []
inputs (t ∷ ts) = attempt_inputs t ++ inputs ts

-- The attempts from a backoff on: each call finds the device unavailable, and each wait lasts its backoff.
abbrev pub Waits : ℕ → List Attempt → Type 0
Waits backoff [] = Unit
Waits backoff (t ∷ ts) =
    (t.calls.outcome ≡ JobOutcome.device_unavailable t.reasons)
    × (length t.naps ≡ (backoff + 249) / 250 + 1)
    × Waits (min (backoff * 2) backoff_max) ts

run_alone-append :
    (is js : List Input) (c : Worker × AppState)
    → run_alone (is ++ js) c ≡ run_alone js (run_alone is c)
unfolding run_alone
run_alone-append [] js c = refl
run_alone-append (i ∷ is) js c = run_alone-append is js (step i c)

-- What an attempt that finds the device unavailable does to the shared state.
abbrev held_state : Attempt → Worker → AppState → AppState
held_state t w st =
    let told = set_printer_reasons st w.name t.reasons in
    record told { jobs = Job.set_state told.jobs w.job.id Job.processing_stopped t.holds.now }

abbrev resting : Worker → Worker
resting w = record w { backoff = min (w.backoff * 2) backoff_max; held = true; phase = check }

-- The job's flag is where it was: nothing of this touches the flags.
still_down :
    (t : Attempt) (w : Worker) (st : AppState)
    → is_canceled w.job st.jobs ≡ false
    → is_canceled w.job (held_state t w st).jobs ≡ false
unfolding is_canceled Job.set_state set_printer_reasons
still_down t w st down = down

attempt_waits :
    (t : Attempt) (w : Worker) (st : AppState)
    → is_canceled w.job st.jobs ≡ false
    → t.calls.outcome ≡ JobOutcome.device_unavailable t.reasons
    → length t.naps ≡ (w.backoff + 249) / 250 + 1
    → run_alone (attempt_inputs t) (at check w, st) ≡ (resting w, held_state t w st)
unfolding run_alone step act
attempt_waits t w st down gone count =
    ap
      (λ b.
        run_alone (t.calls ∷ t.tells ∷ t.holds ∷ t.naps)
          (if b then at after_loop w else at call w, st))
      down
    ∙ ap (λ o. run_alone (t.tells ∷ t.holds ∷ t.naps) (after_call o (at call w), st)) gone
    ∙ sleep_rests t.naps w.backoff (record w { held = true }) (held_state t w st)
        (still_down t w st down) count

state_of-set_state :
    (r : JobRegistry) (id : JobId) (s old : JobState) (now : SystemTime)
    → state_of r id ≡ some old
    → state_of (Job.set_state r id s now) id ≡ some s
state_of-set_state r id s old now found =
    unfold Job.enter_state in ground (arith, get-set_state r id id s now)

-- The attempt that prints, and the end of the task.
pub record Ending : Type 0 where
  pub looks : Input
  pub calls : Input
  pub clears : Input
  pub idles : Input
  pub looks_again : Input
  pub completes : Input
  pub leaves : Input
  pub saves : Input
  pub writes : Input

abbrev pub ending_inputs : Ending → List Input
ending_inputs e =
    e.looks ∷ e.calls ∷ e.clears ∷ e.idles ∷ e.looks_again ∷ e.completes ∷ e.leaves ∷ e.saves
    ∷ e.writes ∷ []

abbrev printed_state : Ending → Worker → AppState → AppState
printed_state e w st =
    let idle = set_printer_idle_named (set_printer_reasons st w.name Reason.empty) w.name in
    persist_state e.writes.write
      (record idle { jobs = Job.set_state idle.jobs w.job.id Job.completed e.completes.now })

last_attempt :
    (e : Ending) (w : Worker) (st : AppState)
    → is_canceled w.job st.jobs ≡ false
    → e.calls.outcome ≡ JobOutcome.completed
    → run_alone (ending_inputs e) (at check w, st) ≡ (at finished w, printed_state e w st)
unfolding run_alone step act is_canceled Job.set_state set_printer_reasons set_printer_idle_named
    persist_state
last_attempt e w st down fine =
    let idle = set_printer_idle_named (set_printer_reasons st w.name Reason.empty) w.name in
    let done : AppState = record idle {
      jobs = Job.set_state idle.jobs w.job.id Job.completed e.completes.now;
    } in
    ap
      (λ b.
        run_alone
          (e.calls ∷ e.clears ∷ e.idles ∷ e.looks_again ∷ e.completes ∷ e.leaves ∷ e.saves
            ∷ e.writes ∷ [])
          (if b then at after_loop w else at call w, st))
      down
    ∙ ap
        (λ o.
          run_alone
            (e.clears ∷ e.idles ∷ e.looks_again ∷ e.completes ∷ e.leaves ∷ e.saves ∷ e.writes ∷ [])
            (after_call o (at call w), st))
        fine
    ∙ ap
        (λ b.
          run_alone (e.completes ∷ e.leaves ∷ e.saves ∷ e.writes ∷ [])
            (if b then at after_loop w else at complete_job w, idle))
        down
    ∙ ap
        (λ b.
          run_alone (e.saves ∷ e.writes ∷ []) (if b then at cancel_reasons w else at save w, done))
        down

-- The job is completed at the end, and the file was written from the registry.
abbrev IsPrinted : Input → JobId → Disk → Worker × AppState → Type 0
IsPrinted writes id disk (w, st) =
    (w.phase ≡ finished)
    × (state_of st.jobs id ≡ some Job.completed)
    × (st.disk ≡ persist writes.write st.printers disk)

-- A task at the head of its loop whose job is in the registry and is not canceled, on its own: after any number of attempts that find the
-- device unavailable, each followed by its wait, an attempt that prints ends the task with the job completed and
-- the file written from the registry.
held_job_prints :
    (ts : List Attempt) (e : Ending) (w : Worker) (st : AppState) (s : JobState)
    → is_canceled w.job st.jobs ≡ false
    → state_of st.jobs w.job.id ≡ some s
    → Waits w.backoff ts
    → e.calls.outcome ≡ JobOutcome.completed
    → let (w', st') = run_alone (inputs ts ++ ending_inputs e) (at check w, st) in
      (w'.phase ≡ finished)
      × (state_of st'.jobs w.job.id ≡ some Job.completed)
      × (st'.disk ≡ persist e.writes.write st'.printers st.disk)
unfolding persist persist_state Job.set_state set_printer_idle_named set_printer_reasons is_canceled
held_job_prints [] e w st s down there waits fine =
    let end = last_attempt e w st down fine in
    subst (λ c. IsPrinted e.writes w.job.id st.disk c) (sym end)
      (refl, state_of-set_state st.jobs w.job.id Job.completed s e.completes.now there, refl)
held_job_prints (t ∷ ts) e w st s down there waits fine =
    let same : run_alone (inputs (t ∷ ts) ++ ending_inputs e) (at check w, st)
        ≡ run_alone (inputs ts ++ ending_inputs e) (resting w, held_state t w st) =
      ap (λ is. run_alone is (at check w, st))
        (append_assoc (attempt_inputs t) (inputs ts) (ending_inputs e))
      ∙ run_alone-append (attempt_inputs t) (inputs ts ++ ending_inputs e) (at check w, st)
      ∙ ap (run_alone (inputs ts ++ ending_inputs e)) (attempt_waits t w st down waits.0 waits.1) in
    subst (λ c. IsPrinted e.writes w.job.id st.disk c) (sym same)
      (held_job_prints ts e (resting w) (held_state t w st) Job.processing_stopped
        (still_down t w st down)
        (state_of-set_state st.jobs w.job.id Job.processing_stopped s t.holds.now there) waits.2
        fine)

-- A task that is spawned for a job which the registry has and whose flag is down, and that runs on its own: after its
-- two first steps and any number of attempts that find the device unavailable, each followed by its wait, an
-- attempt that prints ends the task, with the job completed and the file written from the registry.
pub spawned_job_prints :
    (starts marks : Input) (ts : List Attempt) (e : Ending) (name : String) (job : JobRecord)
    (retry_ms : Option ℕ) (st : AppState) (s : JobState)
    → is_canceled job st.jobs ≡ false
    → state_of st.jobs job.id ≡ some s
    → Waits (min (backoff_start retry_ms) backoff_max) ts
    → e.calls.outcome ≡ JobOutcome.completed
    → let (w', st') =
        run_alone
          (starts ∷ marks ∷ inputs ts ++ ending_inputs e)
          (spawn_print_worker name job retry_ms, st) in
      (w'.phase ≡ finished)
      × (state_of st'.jobs job.id ≡ some Job.completed)
      × (st'.disk ≡ persist e.writes.write st'.printers st.disk)
unfolding run_alone step act spawn_print_worker set_printer_processing_named Job.set_state
    is_canceled
spawned_job_prints starts marks ts e name job retry_ms st s down there waits fine =
    held_job_prints ts e (spawn_print_worker name job retry_ms)
      (record (set_printer_processing_named st name) {
        jobs = Job.set_state st.jobs job.id Job.processing marks.now;
      })
      Job.processing down (state_of-set_state st.jobs job.id Job.processing s marks.now there) waits
      fine

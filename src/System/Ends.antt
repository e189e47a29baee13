-- ===== src/System/Ends.antt =====
-- src/server.rs, `spawn_print_worker`: that a task ends once the device is available, among any other tasks.
use ipp_printer_app.Base.{
  Option, if◌then◌else◌, Bool, List, [], arith, false, get_elem?, refl, some, suc, true, zero, ℕ,
  ◌++◌, ◌+◌, ◌-◌, ◌==◌, ◌∷◌, ◌≡◌, ◌≤◌,
}
use ipp_printer_app.Raster.{JobOutcome}
use ipp_printer_app.Server.{AppState}
use ipp_printer_app.Server.Worker.{
  Phase, mark_printer, mark_job, check, call, complete_reasons, complete_idle, complete_check,
  complete_job, fail_reasons, fail_idle, fail_job, hold_reasons, hold_job, sleep, after_loop,
  cancel_reasons, cancel_idle, cancel_job, save, write_out, finished, Worker, Input, after_call,
  act, step,
}
use ipp_printer_app.Status.{AdvertiserControl}
use ipp_printer_app.System.{
  System, Event, request, work, begin_round, answer, end_round, write_round, submit, read_save,
  write_save, work_at, serve, happen, Reach, start, and_then,
}
use ipp_printer_app.System.Reached.{Quiet, Quiet-workers, happen-Quiet}

-- The steps that a task at this point makes at most, the device being available; `backoff` is its next wait.
abbrev pub steps_left : Phase → ℕ → ℕ
steps_left mark_printer backoff = 14
steps_left mark_job backoff = 13
steps_left check backoff = 12
steps_left call backoff = 11
steps_left complete_reasons backoff = 10
steps_left complete_idle backoff = 9
steps_left complete_check backoff = 8
steps_left complete_job backoff = 7
steps_left (fail_reasons f) backoff = 9
steps_left (fail_idle f) backoff = 8
steps_left (fail_job f) backoff = 7
steps_left (hold_reasons reasons) backoff = 15 + backoff
steps_left hold_job backoff = 14 + backoff
steps_left (sleep left) backoff = 13 + left
steps_left after_loop backoff = 6
steps_left cancel_reasons backoff = 5
steps_left cancel_idle backoff = 4
steps_left cancel_job backoff = 3
steps_left save backoff = 2
steps_left (write_out s) backoff = 1
steps_left finished backoff = 0

abbrev pub steps_of : Worker → ℕ
steps_of w = steps_left w.phase w.backoff

abbrev pub is_available : JobOutcome → Bool
is_available (JobOutcome.device_unavailable reasons) = false
is_available _ = true

steps_left-act :
    (p : Phase) (i : Input) (w : Worker) (st : AppState)
    → is_available i.outcome ≡ true
    → steps_of (act p i w st).0 ≤ steps_left p w.backoff - 1
unfolding act
steps_left-act mark_printer i w st up = omega arith
steps_left-act check i w st up = ground arith
steps_left-act call i w st up = called i.outcome up
  where
    called : (o : JobOutcome) → is_available o ≡ true → steps_of (after_call o w) ≤ 10
    called JobOutcome.completed up = omega arith
    called (JobOutcome.failed f) up = omega arith
    called (JobOutcome.device_unavailable reasons) up = cc up
steps_left-act complete_check i w st up = ground arith
steps_left-act (sleep left) i w st up = ground arith
steps_left-act after_loop i w st up = ground arith
steps_left-act _ i w st up = omega arith

done-finished : (p : Phase) (backoff : ℕ) → steps_left p backoff ≡ 0 → p ≡ finished
done-finished finished backoff e = refl
done-finished _ backoff e = absurd (omega arith)

-- The events that are steps of the worker at the index.
abbrev pub own_step : ℕ → Event → ℕ
own_step k (work j i) = if j == k then 1 else 0
own_step k _ = 0

-- The device is available to the worker at the index.
abbrev pub IsServed : ℕ → Event → Type 0
IsServed k (work j i) = (j == k) ≡ true → is_available i.outcome ≡ true
IsServed k _ = Unit

pub get_elem?-append :
    (k : ℕ) (xs ys : List Worker) (x : Worker)
    → get_elem? xs k ≡ some x
    → get_elem? (xs ++ ys) k ≡ some x
get_elem?-append k [] ys x e = cc e
get_elem?-append zero (y ∷ xs) ys x e = e
get_elem?-append (suc k) (y ∷ xs) ys x e = get_elem?-append k xs ys x e

-- The worker at the index, with at most so many steps left.
abbrev pub HasLeft : ℕ → List Worker → ℕ → Type 0
HasLeft k ws n = (w : Worker) × (get_elem? ws k ≡ some w) × (steps_of w ≤ n)

HasLeft-work_at :
    (j k : ℕ) (i : Input) (ws : List Worker) (st : AppState) (n : ℕ)
    → ((j == k) ≡ true → is_available i.outcome ≡ true)
    → HasLeft k ws n
    → HasLeft k (work_at j i ws st).0 (n - (if j == k then 1 else 0))
unfolding work_at step
HasLeft-work_at j k i [] st n up (w, found, bound) = cc found
HasLeft-work_at zero zero i (x ∷ ws) st n up (w, found, bound) =
    let same : x ≡ w = cc found in
    let before : steps_of x ≤ n = rw same bound in
    ((step i (x, st)).0, refl, omega (arith, steps_left-act x.phase i x st (up refl)))
HasLeft-work_at zero (suc k) i (x ∷ ws) st n up (w, found, bound) = (w, found, ground arith)
HasLeft-work_at (suc j) zero i (x ∷ ws) st n up (w, found, bound) = (w, found, ground arith)
HasLeft-work_at (suc j) (suc k) i (x ∷ ws) st n up h =
    let (w, found, bound) = HasLeft-work_at j k i ws st n (λ e. up (ground arith)) h in
    (w, found, ground arith)

module _ {A : Type 0} (control : AdvertiserControl A) (retry_ms : Option ℕ) (k : ℕ) where
  still-HasLeft :
      (s s' : System A) (n : ℕ) → Quiet s s' → HasLeft k s.workers n → HasLeft k s'.workers (n - 0)
  still-HasLeft s s' n q (w, found, bound) =
      (w, rw (Quiet-workers control retry_ms s s' q) found, omega arith)

  happen-HasLeft :
      (e : Event) (s : System A) (n : ℕ)
      → IsServed k e
      → HasLeft k s.workers n
      → HasLeft k (happen control retry_ms e s).workers (n - own_step k e)
  unfolding happen serve
  happen-HasLeft (request env name body) s n up (w, found, bound) =
      (w, get_elem?-append k s.workers _ w found, omega arith)
  happen-HasLeft (work j i) s n up h = HasLeft-work_at j k i s.workers s.app n up h
  happen-HasLeft begin_round s n up h =
      still-HasLeft s _ n (happen-Quiet control retry_ms begin_round s refl) h
  happen-HasLeft (answer a) s n up h =
      still-HasLeft s _ n (happen-Quiet control retry_ms (answer a) s refl) h
  happen-HasLeft end_round s n up h =
      still-HasLeft s _ n (happen-Quiet control retry_ms end_round s refl) h
  happen-HasLeft (write_round write) s n up h =
      still-HasLeft s _ n (happen-Quiet control retry_ms (write_round write) s refl) h
  happen-HasLeft (submit name form) s n up h =
      still-HasLeft s _ n (happen-Quiet control retry_ms (submit name form) s refl) h
  happen-HasLeft (read_save l) s n up h =
      still-HasLeft s _ n (happen-Quiet control retry_ms (read_save l) s refl) h
  happen-HasLeft (write_save l write) s n up h =
      still-HasLeft s _ n (happen-Quiet control retry_ms (write_save l write) s refl) h

  -- How many of the events are steps of the worker.
  abbrev pub own_steps : {s t : System A} → Reach control retry_ms s t → ℕ
  own_steps start = 0
  own_steps (and_then r e) = own_steps r + own_step k e

  -- The device is available whenever the worker makes a step.
  abbrev pub AreServed : {s t : System A} → Reach control retry_ms s t → Type 0
  AreServed start = Unit
  AreServed (and_then r e) = AreServed r × IsServed k e

  Reach-HasLeft :
      {s t : System A} (r : Reach control retry_ms s t) (n : ℕ)
      → AreServed r
      → HasLeft k s.workers n
      → HasLeft k t.workers (n - own_steps r)
  Reach-HasLeft start n up (w, found, bound) = (w, found, omega arith)
  Reach-HasLeft (and_then {t} r e) n up h =
      let (w, found, bound) =
        happen-HasLeft e t (n - own_steps r) up.1 (Reach-HasLeft r n up.0 h) in
      (w, found, omega arith)

  -- From any state of the server on, whatever requests, steps of other workers, polls and forms come between: once the
  -- worker at an index has made `steps_of` steps of its own (14 if it was just spawned), in each of which the outcome
  -- that the print callback has ready is not that the device is unavailable, it has ended.
  pub available_worker_ends :
      {s t : System A} (r : Reach control retry_ms s t) (w : Worker)
      → get_elem? s.workers k ≡ some w
      → AreServed r
      → steps_of w ≤ own_steps r
      → (w' : Worker) × (get_elem? t.workers k ≡ some w') × (w'.phase ≡ finished)
  available_worker_ends r w found up enough =
      let (w', found', bound) = Reach-HasLeft r (steps_of w) up (w, found, omega arith) in
      (w', found', done-finished w'.phase w'.backoff (omega arith))

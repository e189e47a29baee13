-- ===== src/System/Reached.antt =====
-- src/server.rs: the jobs and the print workers in every state that requests, workers, the poller and forms reach.
use ipp_printer_app.Base.{
  Bool, List, Option, String, [], ap, arith, false, length, none, refl, some, suc, sym, true, zero,
  ℕ, ◌∷◌, ◌≡◌, ◌≤◌,
}
use mathlib.Core.Path.{subst}
use ipp_printer_app.Device.{PollStatus}
use ipp_printer_app.Job.{JobRegistry, get, new}
use ipp_printer_app.Job.Invariant.{HasRoom, new-IsValid}
use ipp_printer_app.Job.History.{Op, length-apply}
use ipp_printer_app.Printer.{PrinterRecord}
use ipp_printer_app.Server.{AppState}
use ipp_printer_app.Server.Startup.{ServerOptions, router_state}
use ipp_printer_app.Server.MediaForm.{MediaForm, change_media}
use ipp_printer_app.Server.Worker.{Worker, Input, step}
use ipp_printer_app.Server.Dispatch.{handle_ipp}
use ipp_printer_app.Server.Dispatch.Frame.{IsLawful}
use ipp_printer_app.Server.Dispatch.Requests.{handle_ipp-IsLawful}
use ipp_printer_app.State.{Disk, Write}
use ipp_printer_app.Status.{AdvertiserControl}
use ipp_printer_app.System.{
  Poller, waiting, polling, saving, Save, due, holding, saved, System, Event, request, work,
  begin_round, answer, end_round, write_round, submit, read_save, write_save, launch, work_at,
  serve, snapshot, next_answer, finish_round, save_round, write_at, happen, Reach, start, and_then,
}
use ipp_printer_app.System.Spawned.{handle_ipp-AreBacked}
use ipp_printer_app.System.Driving.{apply_opt, op_at, jobs-act}
use ipp_printer_app.System.Evolving.{length-run}
use ipp_printer_app.System.Invariant.{IsSound, work_at-IsSound, serve-IsSound}

-- The jobs and the workers are as they were.
pub Quiet : {A : Type 0} → System A → System A → Type 0
Quiet s s' = (s'.app.jobs ≡ s.app.jobs) × (s'.workers ≡ s.workers)

length-apply_opt : (o : Option Op) (r : JobRegistry) → length r.jobs ≤ length (apply_opt o r).jobs
length-apply_opt none r = omega arith
length-apply_opt (some op) r = omega (arith, length-apply op r)

length-work_at :
    (k : ℕ) (i : Input) (ws : List Worker) (st : AppState)
    → length st.jobs.jobs ≤ length (work_at k i ws st).1.jobs.jobs
unfolding work_at step
length-work_at k i [] st = omega arith
length-work_at zero i (w ∷ ws) st =
    subst (λ (r : JobRegistry). length st.jobs.jobs ≤ length r.jobs) (sym (jobs-act w.phase i w st))
      (length-apply_opt (op_at w.phase i.now w) st.jobs)
length-work_at (suc k) i (w ∷ ws) st = length-work_at k i ws st

-- The write of a form changes the file only.
pub write_at-only_disk :
    (k : ℕ) (write : Write) (xs : List Save) (st : AppState)
    → (write_at k write xs st).1 ≡ record st { disk = (write_at k write xs st).1.disk }
unfolding write_at
write_at-only_disk k write [] st = refl
write_at-only_disk zero write (due ∷ xs) st = refl
write_at-only_disk zero write (holding c ∷ xs) st = refl
write_at-only_disk zero write (saved ∷ xs) st = refl
write_at-only_disk (suc k) write (x ∷ xs) st = write_at-only_disk k write xs st

-- All that is neither a request nor a step of a worker.
abbrev pub is_quiet : Event → Bool
is_quiet (request env name body) = false
is_quiet (work j i) = false
is_quiet _ = true

jobs-change_media :
    (st : AppState) (name : String) (form : MediaForm) (o : Option PrinterRecord)
    → (change_media st name form o).0.jobs ≡ st.jobs
unfolding change_media
jobs-change_media st name form none = refl
jobs-change_media st name form (some rec) = refl

module _ {A : Type 0} (control : AdvertiserControl A) (retry_ms : Option ℕ) where
  pub snapshot-Quiet : (p : Poller) (s : System A) → Quiet s (snapshot control retry_ms p s)
  unfolding snapshot Quiet
  snapshot-Quiet waiting s = (refl, refl)
  snapshot-Quiet (polling cfgs changed) s = (refl, refl)
  snapshot-Quiet (saving c) s = (refl, refl)

  pub next_answer-Quiet :
      (a : Option PollStatus) (p : Poller) (s : System A)
      → Quiet s (next_answer control retry_ms a p s)
  unfolding next_answer Quiet
  next_answer-Quiet a waiting s = (refl, refl)
  next_answer-Quiet a (saving c) s = (refl, refl)
  next_answer-Quiet a (polling [] changed) s = (refl, refl)
  next_answer-Quiet a (polling (cfg ∷ cfgs) changed) s = (refl, refl)

  pub finish_round-Quiet : (p : Poller) (s : System A) → Quiet s (finish_round control retry_ms p s)
  unfolding finish_round Quiet
  finish_round-Quiet waiting s = (refl, refl)
  finish_round-Quiet (polling [] true) s = (refl, refl)
  finish_round-Quiet (polling [] false) s = (refl, refl)
  finish_round-Quiet (polling (cfg ∷ cfgs) changed) s = (refl, refl)
  finish_round-Quiet (saving c) s = (refl, refl)

  pub save_round-Quiet :
      (write : Write) (p : Poller) (s : System A) → Quiet s (save_round control retry_ms write p s)
  unfolding save_round Quiet
  save_round-Quiet write waiting s = (refl, refl)
  save_round-Quiet write (polling cfgs changed) s = (refl, refl)
  save_round-Quiet write (saving c) s = (refl, refl)

  submit-Quiet :
      (name : String) (form : MediaForm) (s : System A)
      → Quiet s (happen control retry_ms (submit name form) s)
  unfolding happen Quiet
  submit-Quiet name form s = (jobs-change_media s.app name form _, refl)

  read_save-Quiet : (j : ℕ) (s : System A) → Quiet s (happen control retry_ms (read_save j) s)
  unfolding happen Quiet
  read_save-Quiet j s = (refl, refl)

  write_save-Quiet :
      (j : ℕ) (write : Write) (s : System A)
      → Quiet s (happen control retry_ms (write_save j write) s)
  unfolding happen Quiet
  write_save-Quiet j write s =
      (ap (λ (st : AppState). st.jobs) (write_at-only_disk j write s.saves s.app), refl)

  pub happen-Quiet :
      (e : Event) (s : System A) → is_quiet e ≡ true → Quiet s (happen control retry_ms e s)
  unfolding happen
  happen-Quiet (request env name body) s h = cc h
  happen-Quiet (work j i) s h = cc h
  happen-Quiet begin_round s h = snapshot-Quiet s.poller s
  happen-Quiet (answer a) s h = next_answer-Quiet a s.poller s
  happen-Quiet end_round s h = finish_round-Quiet s.poller s
  happen-Quiet (write_round write) s h = save_round-Quiet write s.poller s
  happen-Quiet (submit name form) s h = submit-Quiet name form s
  happen-Quiet (read_save j) s h = read_save-Quiet j s
  happen-Quiet (write_save j write) s h = write_save-Quiet j write s

  Quiet-IsSound :
      (s s' : System A) → Quiet s s' → IsSound s.app.jobs s.workers → IsSound s'.app.jobs s'.workers
  unfolding Quiet
  Quiet-IsSound s s' (jobs, workers) h =
      subst (λ ws. IsSound s'.app.jobs ws) (sym workers)
        (subst (λ r. IsSound r s.workers) (sym jobs) h)

  pub Quiet-workers : (s s' : System A) → Quiet s s' → s'.workers ≡ s.workers
  unfolding Quiet
  Quiet-workers s s' (jobs, workers) = workers

  Quiet-length : (s s' : System A) → Quiet s s' → length s.app.jobs.jobs ≤ length s'.app.jobs.jobs
  unfolding Quiet
  Quiet-length s s' (jobs, workers) = rw jobs (omega arith)

  pub length-happen :
      (e : Event) (s : System A)
      → length s.app.jobs.jobs ≤ length (happen control retry_ms e s).app.jobs.jobs
  unfolding happen serve
  length-happen (request env name body) s =
      let law : IsLawful s.app name (handle_ipp env s.app name body) =
        handle_ipp-IsLawful env s.app name body in
      rw law.effect (omega (arith, length-run s.app.jobs law.ops))
  length-happen (work k i) s = length-work_at k i s.workers s.app
  length-happen begin_round s = Quiet-length s _ (happen-Quiet begin_round s refl)
  length-happen (answer a) s = Quiet-length s _ (happen-Quiet (answer a) s refl)
  length-happen end_round s = Quiet-length s _ (happen-Quiet end_round s refl)
  length-happen (write_round write) s = Quiet-length s _ (happen-Quiet (write_round write) s refl)
  length-happen (submit name form) s = Quiet-length s _ (happen-Quiet (submit name form) s refl)
  length-happen (read_save j) s = Quiet-length s _ (happen-Quiet (read_save j) s refl)
  length-happen (write_save j write) s = Quiet-length s _ (happen-Quiet (write_save j write) s refl)

  happen-IsSound :
      (e : Event) (s : System A)
      → HasRoom (happen control retry_ms e s).app.jobs
      → IsSound s.app.jobs s.workers
      → IsSound (happen control retry_ms e s).app.jobs (happen control retry_ms e s).workers
  unfolding happen serve
  happen-IsSound (request env name body) s room h =
      let law : IsLawful s.app name (handle_ipp env s.app name body) =
        handle_ipp-IsLawful env s.app name body in
      serve-IsSound retry_ms s.app.jobs s.workers name law.ops
        (handle_ipp env s.app name body).state (handle_ipp env s.app name body).spawned h
        (ap (λ (st : AppState). st.jobs) law.effect) law.allowed
        (omega (
          arith,
          length-run s.app.jobs law.ops,
          subst HasRoom (ap (λ (st : AppState). st.jobs) law.effect) room,
        ))
        (handle_ipp-AreBacked env s.app name h.valid body)
  happen-IsSound (work k i) s room h =
      work_at-IsSound k i s.workers s.app (omega (arith, length-work_at k i s.workers s.app)) h
  happen-IsSound begin_round s room h = Quiet-IsSound s _ (happen-Quiet begin_round s refl) h
  happen-IsSound (answer a) s room h = Quiet-IsSound s _ (happen-Quiet (answer a) s refl) h
  happen-IsSound end_round s room h = Quiet-IsSound s _ (happen-Quiet end_round s refl) h
  happen-IsSound (write_round write) s room h =
      Quiet-IsSound s _ (happen-Quiet (write_round write) s refl) h
  happen-IsSound (submit name form) s room h =
      Quiet-IsSound s _ (happen-Quiet (submit name form) s refl) h
  happen-IsSound (read_save j) s room h = Quiet-IsSound s _ (happen-Quiet (read_save j) s refl) h
  happen-IsSound (write_save j write) s room h =
      Quiet-IsSound s _ (happen-Quiet (write_save j write) s refl) h

  pub Reach-IsSound :
      {s t : System A}
      → Reach control retry_ms s t
      → IsSound s.app.jobs s.workers
      → HasRoom t.app.jobs
      → IsSound t.app.jobs t.workers
  Reach-IsSound start h room = h
  Reach-IsSound (and_then {t} r e) h room =
      happen-IsSound e t room (Reach-IsSound r h (omega (arith, length-happen e t)))

  pub launch-IsSound :
      (opts : ServerOptions) (disk : Disk) (adv : Option A)
      → IsSound
          (launch (router_state opts disk, adv)).app.jobs
          (launch (router_state opts disk, adv)).workers
  unfolding launch router_state get new
  launch-IsSound opts disk adv = record { valid = new-IsValid; owners = tt; driven = λ id h. cc h }

-- The system when the server starts to listen.
abbrev pub at_start : {A : Type 0} → ServerOptions → Disk → Option A → System A
at_start opts disk adv = launch (router_state opts disk, adv)

module _ {A : Type 0} (control : AdvertiserControl A) (retry_ms : Option ℕ) (opts : ServerOptions)
    (disk : Disk) (adv : Option A) (s : System A)
    (reached : Reach control retry_ms (at_start opts disk adv) s) (room : HasRoom s.app.jobs) where
  -- In every state that a server reaches from its start, in whatever order requests, steps of print workers, answers of
  -- status polls and submitted forms come, while fewer than 2^32 - 2 jobs were created: the job registry is well-formed;
  -- every print worker has a job of the registry, with that job's cancel flag, and the job is out of `Pending` once the
  -- worker has set it to `Processing`; and every job that is neither `Pending` nor in a terminal state is the job of a
  -- worker that still has to bring it to its end.
  pub reached-IsSound : IsSound s.app.jobs s.workers
  reached-IsSound =
      Reach-IsSound control retry_ms reached (launch-IsSound control retry_ms opts disk adv) room

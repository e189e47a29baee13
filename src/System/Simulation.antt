-- ===== src/System/Simulation.antt =====
-- src/server.rs, `spawn_print_worker`: the running server simulates the interleavings of each of its tasks.
use ipp_printer_app.Base.{
  List, ◌∙◌, find, none, sym, if◌then◌else◌, ◌+◌, String, true, false, Option, [], ap, arith, false,
  get_elem?, inl, inr, refl, some, true, ℕ, ◌==◌, ◌∷◌, ◌≡◌,
}
use mathlib.Core.Path.{subst}
use ipp_printer_app.Device.{PollStatus}
use ipp_printer_app.Job.{JobId, JobRecord}
use ipp_printer_app.Job.Invariant.{HasRoom}
use ipp_printer_app.Printer.{PrinterRecord, is_named}
use ipp_printer_app.Server.{AppState}
use ipp_printer_app.Server.Dispatch.{handle_ipp}
use ipp_printer_app.Server.Dispatch.Frame.{IsLawful}
use ipp_printer_app.Server.Dispatch.Requests.{handle_ipp-IsLawful}
use ipp_printer_app.Server.MediaForm.{MediaForm, change_media}
use ipp_printer_app.Server.Worker.{Worker, Input, step}
use ipp_printer_app.Server.Worker.Terminal.{act-job}
use ipp_printer_app.Server.Worker.Cancel.{own_steps}
use ipp_printer_app.Server.Worker.Interleaving.{here, own_step}
use ipp_printer_app.State.{Write}
use ipp_printer_app.Status.{AdvertiserControl}
use ipp_printer_app.System.{
  Poller, waiting, polling, saving, Save, System, Event, request, work, begin_round, answer,
  end_round, write_round, submit, read_save, write_save, work_at, serve, snapshot, next_answer,
  finish_round, save_round, write_at, happen, Reach, start, and_then,
}
use ipp_printer_app.System.Reached.{
  length-happen, Quiet-workers, is_quiet, happen-Quiet, write_at-only_disk,
}
use ipp_printer_app.System.Ends.{get_elem?-append}
use ipp_printer_app.System.Ends
use ipp_printer_app.System.Projection.{Moves, Sees, unmoved, Sees-Moves, Sees-run, IsAlone}
use ipp_printer_app.System.Alone.{work_at-Stepped, IsAlone-work_at, IsAlone-append}

module _ {A : Type 0} (control : AdvertiserControl A) (retry_ms : Option ℕ) (k : ℕ) where
  -- The worker at the index after an event, having got there from `c` with `n` steps of its own.
  abbrev pub Arrived : Worker × AppState → JobId → System A → ℕ → Type 0
  Arrived c id s n =
      (w : Worker) × (get_elem? s.workers k ≡ some w) × (w.job.id ≡ id) × Sees c (w, s.app) n

  quiet-IsAlone :
      (id : JobId) (e : Event) (s : System A)
      → is_quiet e ≡ true
      → IsAlone k id (happen control retry_ms e s).workers
      → IsAlone k id s.workers
  quiet-IsAlone id e s q h =
      subst (λ ws. IsAlone k id ws)
        (Quiet-workers control retry_ms s (happen control retry_ms e s)
          (happen-Quiet control retry_ms e s q))
        h

  happen-IsAlone :
      (id : JobId) (e : Event) (s : System A)
      → IsAlone k id (happen control retry_ms e s).workers
      → IsAlone k id s.workers
  unfolding happen serve
  happen-IsAlone id (request env name body) s h = IsAlone-append id k s.workers _ h
  happen-IsAlone id (work j i) s h = IsAlone-work_at id j k i s.workers s.app h
  happen-IsAlone id begin_round s h = quiet-IsAlone id begin_round s refl h
  happen-IsAlone id (answer a) s h = quiet-IsAlone id (answer a) s refl h
  happen-IsAlone id end_round s h = quiet-IsAlone id end_round s refl h
  happen-IsAlone id (write_round write) s h = quiet-IsAlone id (write_round write) s refl h
  happen-IsAlone id (submit name form) s h = quiet-IsAlone id (submit name form) s refl h
  happen-IsAlone id (read_save l) s h = quiet-IsAlone id (read_save l) s refl h
  happen-IsAlone id (write_save l write) s h = quiet-IsAlone id (write_save l write) s refl h

  snapshot-Moves :
      (id : JobId) (p : Poller) (s : System A) → Moves id s.app (snapshot control retry_ms p s).app
  unfolding snapshot
  snapshot-Moves id waiting s = unmoved refl refl refl
  snapshot-Moves id (polling cfgs changed) s = unmoved refl refl refl
  snapshot-Moves id (saving c) s = unmoved refl refl refl

  next_answer-Moves :
      (id : JobId) (a : Option PollStatus) (p : Poller) (s : System A)
      → Moves id s.app (next_answer control retry_ms a p s).app
  unfolding next_answer
  next_answer-Moves id a waiting s = unmoved refl refl refl
  next_answer-Moves id a (saving c) s = unmoved refl refl refl
  next_answer-Moves id a (polling [] changed) s = unmoved refl refl refl
  next_answer-Moves id a (polling (cfg ∷ cfgs) changed) s = unmoved refl refl refl

  finish_round-Moves :
      (id : JobId) (p : Poller) (s : System A)
      → Moves id s.app (finish_round control retry_ms p s).app
  unfolding finish_round
  finish_round-Moves id waiting s = unmoved refl refl refl
  finish_round-Moves id (polling [] true) s = unmoved refl refl refl
  finish_round-Moves id (polling [] false) s = unmoved refl refl refl
  finish_round-Moves id (polling (cfg ∷ cfgs) changed) s = unmoved refl refl refl
  finish_round-Moves id (saving c) s = unmoved refl refl refl

  save_round-Moves :
      (id : JobId) (write : Write) (p : Poller) (s : System A)
      → Moves id s.app (save_round control retry_ms write p s).app
  unfolding save_round
  save_round-Moves id write waiting s = unmoved refl refl refl
  save_round-Moves id write (polling cfgs changed) s = unmoved refl refl refl
  save_round-Moves id write (saving c) s = unmoved refl refl refl

  change_media-Moves :
      (id : JobId) (st : AppState) (name : String) (form : MediaForm) (o : Option PrinterRecord)
      → Moves id st (change_media st name form o).0
  unfolding change_media
  change_media-Moves id st name form none = unmoved refl refl refl
  change_media-Moves id st name form (some rec) = unmoved refl refl refl

  write_at-Moves :
      (id : JobId) (l : ℕ) (write : Write) (xs : List Save) (st : AppState)
      → Moves id st (write_at l write xs st).1
  write_at-Moves id l write xs st =
      let only = write_at-only_disk l write xs st in
      unmoved (ap (λ (x : AppState). x.host) only) (ap (λ (x : AppState). x.port) only)
        (ap (λ (x : AppState). x.jobs) only)

  -- The worker stands still while another task moves.
  still-Arrived :
      (c : Worker × AppState) (id : JobId) (s s' : System A) (n : ℕ)
      → s'.workers ≡ s.workers
      → Moves id s.app s'.app
      → HasRoom s'.app.jobs
      → Arrived c id s n
      → Arrived c id s' (n + 0)
  still-Arrived c id s s' n workers m room (w, found, mine, sees) =
      let (r, steps) =
        Sees-Moves w s.app s'.app n (subst (λ x. Moves x s.app s'.app) (sym mine) m) room sees in
      (w, rw workers found, mine, (r, omega arith))

  quiet-Arrived :
      (c : Worker × AppState) (id : JobId) (e : Event) (s : System A) (n : ℕ)
      → is_quiet e ≡ true
      → Moves id s.app (happen control retry_ms e s).app
      → HasRoom (happen control retry_ms e s).app.jobs
      → Arrived c id s n
      → Arrived c id (happen control retry_ms e s) (n + 0)
  quiet-Arrived c id e s n q m room h =
      still-Arrived c id s (happen control retry_ms e s) n
        (Quiet-workers control retry_ms s (happen control retry_ms e s)
          (happen-Quiet control retry_ms e s q))
        m room h

  work-Arrived :
      (c : Worker × AppState) (id : JobId) (s : System A) (n j : ℕ) (i : Input)
      → HasRoom (work_at j i s.workers s.app).1.jobs
      → IsAlone k id s.workers
      → Arrived c id s n
      → Arrived c id (happen control retry_ms (work j i) s) (n + (if j == k then 1 else 0))
  unfolding happen step own_steps
  work-Arrived c id s n j i room alone (w, found, mine, (r, steps)) =
      elim (work_at-Stepped j k i w s.workers s.app found
        (subst (λ x. IsAlone k x s.workers) (sym mine) alone)) [
          | inl (hit, own, moved) ↦
              let kept : (step i (w, s.app)).0.job.id ≡ id =
                ap (λ (r : JobRecord). r.id) (act-job w.phase i w s.app) ∙ mine in
              let sees : Sees c (step i (w, s.app)) (n + (if j == k then 1 else 0)) =
                (own_step r i, rw hit (omega arith)) in
              (
                (step i (w, s.app)).0,
                own,
                kept,
                subst (λ x. Sees c ((step i (w, s.app)).0, x) (n + (if j == k then 1 else 0)))
                    (sym moved) sees,
              )
          | inr (miss, same, moves) ↦
              let (r', steps') = Sees-Moves w s.app _ n moves room (r, steps) in
              (w, same, mine, (r', rw miss (omega arith)))
        ]

  happen-Arrived :
      (c : Worker × AppState) (id : JobId) (e : Event) (s : System A) (n : ℕ)
      → HasRoom (happen control retry_ms e s).app.jobs
      → IsAlone k id s.workers
      → Arrived c id s n
      → Arrived c id (happen control retry_ms e s) (n + Ends.own_step k e)
  unfolding happen serve
  happen-Arrived c id (request env name body) s n room alone (w, found, mine, sees) =
      let law : IsLawful s.app name (handle_ipp env s.app name body) =
        handle_ipp-IsLawful env s.app name body in
      let (r, steps) =
        Sees-run name w law.ops s.app n law.allowed
          (subst HasRoom (ap (λ (st : AppState). st.jobs) law.effect) room) sees in
      (
        w,
        get_elem?-append k s.workers _ w found,
        mine,
        subst (λ x. Sees c (w, x) (n + 0)) (sym law.effect) (r, omega arith),
      )
  happen-Arrived c id (work j i) s n room alone h = work-Arrived c id s n j i room alone h
  happen-Arrived c id begin_round s n room alone h =
      quiet-Arrived c id begin_round s n refl (snapshot-Moves id s.poller s) room h
  happen-Arrived c id (answer a) s n room alone h =
      quiet-Arrived c id (answer a) s n refl (next_answer-Moves id a s.poller s) room h
  happen-Arrived c id end_round s n room alone h =
      quiet-Arrived c id end_round s n refl (finish_round-Moves id s.poller s) room h
  happen-Arrived c id (write_round write) s n room alone h =
      quiet-Arrived c id (write_round write) s n refl (save_round-Moves id write s.poller s) room h
  happen-Arrived c id (submit name form) s n room alone h =
      quiet-Arrived c id (submit name form) s n refl
        (change_media-Moves id s.app name form (find (is_named name) s.app.printers)) room h
  happen-Arrived c id (read_save l) s n room alone h =
      quiet-Arrived c id (read_save l) s n refl (unmoved refl refl refl) room h
  happen-Arrived c id (write_save l write) s n room alone h =
      quiet-Arrived c id (write_save l write) s n refl (write_at-Moves id l write s.saves s.app)
        room h

  pub Reach-Arrived :
      {s t : System A} (r : Reach control retry_ms s t) (w : Worker)
      → get_elem? s.workers k ≡ some w
      → HasRoom t.app.jobs
      → IsAlone k w.job.id t.workers
      → Arrived (w, s.app) w.job.id t (Ends.own_steps control retry_ms k r)
  unfolding own_steps
  Reach-Arrived start w found room alone = (w, found, refl, (here, refl))
  Reach-Arrived (and_then {t} r e) w found room alone =
      let before : IsAlone k w.job.id t.workers = happen-IsAlone w.job.id e t alone in
      let room' : HasRoom t.app.jobs = omega (arith, length-happen control retry_ms e t) in
      happen-Arrived (w, _) w.job.id e t (Ends.own_steps control retry_ms k r) room before
        (Reach-Arrived r w found room' before)

  -- A print worker of a server, of whose job there is no other worker: what requests, other workers, the poller and
  -- forms do between its steps is what `Interleaving.Run` lets other tasks do, with as many steps of its own. Fewer than
  -- 2^32 - 2 jobs were created.
  pub Reach-Run :
      {s t : System A} (r : Reach control retry_ms s t) (w : Worker)
      → get_elem? s.workers k ≡ some w
      → HasRoom t.app.jobs
      → IsAlone k w.job.id t.workers
      → (w' : Worker) × (get_elem? t.workers k ≡ some w')
        × Sees (w, s.app) (w', t.app) (Ends.own_steps control retry_ms k r)
  Reach-Run r w found room alone =
      let (w', found', same, sees) = Reach-Arrived r w found room alone in (w', found', sees)

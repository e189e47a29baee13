-- ===== src/System/Queues.antt =====
-- src/server.rs: the queues that the print workers write to.
use ipp_printer_app.Base.{
  All, All-append, All-map, List, Option, String, [], any, ap, arith, map, refl, suc, sym, true,
  zero, ℕ, ◌=ˢ◌, ◌||◌, ◌∙◌, ◌∷◌, ◌≡◌,
}
use mathlib.Core.Path.{subst}
use ipp_printer_app.Job.Invariant.{HasRoom}
use ipp_printer_app.Printer.{PrinterConfig, PrinterRegistry, is_named}
use ipp_printer_app.Server.{AppState}
use ipp_printer_app.Server.Startup.{ServerOptions, router_state}
use ipp_printer_app.Server.Handler.{PrintTask}
use ipp_printer_app.Server.Worker.{Phase, Worker, Input, act, step, spawn_print_worker}
use ipp_printer_app.State.{Disk}
use ipp_printer_app.Status.{AdvertiserControl}
use ipp_printer_app.System.{
  System, Event, request, work, begin_round, answer, end_round, write_round, submit, read_save,
  write_save, launch, work_at, serve, happen, Reach, start, and_then,
}
use ipp_printer_app.Server.Dispatch.{handle_ipp}
use ipp_printer_app.System.Spawned.{IsBacked, handle_ipp-AreBacked}
use ipp_printer_app.System.Invariant.{IsSound, spawned_worker}
use ipp_printer_app.System.Printers.{fixed, fixed-happen, fixed-Reach}
use ipp_printer_app.System.Reached.{
  at_start, Quiet-workers, is_quiet, happen-Quiet, length-happen, Reach-IsSound, launch-IsSound,
}

-- The registry has the queue of the worker.
abbrev pub HasQueue : PrinterRegistry → Worker → Type 0
HasQueue ps w = any (is_named w.name) ps ≡ true

any-fixed :
    (name : String) (ps : PrinterRegistry)
    → any (is_named name) ps ≡ any (λ (q : String × PrinterConfig). q.1.name =ˢ name) (map fixed ps)
any-fixed name [] = refl
any-fixed name (p ∷ ps) = ap (λ b. p.config.name =ˢ name || b) (any-fixed name ps)

HasQueue-fixed :
    (ps qs : PrinterRegistry) (w : Worker)
    → map fixed qs ≡ map fixed ps
    → HasQueue ps w
    → HasQueue qs w
HasQueue-fixed ps qs w same h =
    any-fixed w.name qs
    ∙ ap (any (λ (q : String × PrinterConfig). q.1.name =ˢ w.name)) same
    ∙ sym (any-fixed w.name ps)
    ∙ h

act-name : (p : Phase) (i : Input) (w : Worker) (st : AppState) → (act p i w st).0.name ≡ w.name
unfolding act
act-name Phase.check i w st = ground arith
act-name Phase.call i w st = ground arith
act-name Phase.complete_check i w st = ground arith
act-name (Phase.sleep left) i w st = ground arith
act-name Phase.after_loop i w st = ground arith
act-name _ i w st = refl

work_at-HasQueue :
    (k : ℕ) (i : Input) (ws : List Worker) (st : AppState) (ps : PrinterRegistry)
    → All (HasQueue ps) ws
    → All (HasQueue ps) (work_at k i ws st).0
unfolding work_at step
work_at-HasQueue k i [] st ps h = tt
work_at-HasQueue zero i (w ∷ ws) st ps h =
    (subst (λ name. any (is_named name) ps ≡ true) (sym (act-name w.phase i w st)) h.0, h.1)
work_at-HasQueue (suc k) i (w ∷ ws) st ps h = (h.0, work_at-HasQueue k i ws st ps h.1)

module _ {A : Type 0} (control : AdvertiserControl A) (retry_ms : Option ℕ) where
  spawned-HasQueue :
      (st : AppState) (ts : List PrintTask)
      → All (IsBacked st) ts
      → All (HasQueue st.printers) (map (spawned_worker retry_ms) ts)
  unfolding spawn_print_worker
  spawned-HasQueue st [] h = tt
  spawned-HasQueue st (t ∷ ts) h = (h.0.1, spawned-HasQueue st ts h.1)

  abbrev HaveQueues : System A → Type 0
  HaveQueues s = All (HasQueue s.app.printers) s.workers

  still-HaveQueues :
      (s s' : System A)
      → s'.workers ≡ s.workers
      → map fixed s'.app.printers ≡ map fixed s.app.printers
      → HaveQueues s
      → HaveQueues s'
  still-HaveQueues s s' workers same h =
      subst (λ ws. All (HasQueue s'.app.printers) ws) (sym workers)
        (All-map s.workers (λ w q. HasQueue-fixed s.app.printers s'.app.printers w same q) h)

  quiet-HaveQueues :
      (e : Event) (s : System A)
      → is_quiet e ≡ true
      → All (HasQueue s.app.printers) s.workers
      → All
          (HasQueue (happen control retry_ms e s).app.printers)
          (happen control retry_ms e s).workers
  quiet-HaveQueues e s q h =
      still-HaveQueues s (happen control retry_ms e s)
        (Quiet-workers control retry_ms s (happen control retry_ms e s)
          (happen-Quiet control retry_ms e s q))
        (fixed-happen control retry_ms e s) h

  happen-HaveQueues :
      (e : Event) (s : System A)
      → IsSound s.app.jobs s.workers
      → HaveQueues s
      → HaveQueues (happen control retry_ms e s)
  unfolding happen serve
  happen-HaveQueues (request env name body) s sound h =
      All-append _ s.workers _
        (All-map s.workers
          (λ w q.
            HasQueue-fixed s.app.printers _ w
              (fixed-happen control retry_ms (request env name body) s) q)
          h)
        (spawned-HasQueue (handle_ipp env s.app name body).state _
          (handle_ipp-AreBacked env s.app name sound.valid body))
  happen-HaveQueues (work k i) s sound h = work_at-HasQueue k i s.workers s.app _ (
      All-map s.workers
        (λ w q. HasQueue-fixed s.app.printers _ w (fixed-happen control retry_ms (work k i) s) q) h)
  happen-HaveQueues begin_round s sound h = quiet-HaveQueues begin_round s refl h
  happen-HaveQueues (answer a) s sound h = quiet-HaveQueues (answer a) s refl h
  happen-HaveQueues end_round s sound h = quiet-HaveQueues end_round s refl h
  happen-HaveQueues (write_round write) s sound h = quiet-HaveQueues (write_round write) s refl h
  happen-HaveQueues (submit name form) s sound h = quiet-HaveQueues (submit name form) s refl h
  happen-HaveQueues (read_save l) s sound h = quiet-HaveQueues (read_save l) s refl h
  happen-HaveQueues (write_save l write) s sound h = quiet-HaveQueues (write_save l write) s refl h

  Reach-HaveQueues :
      {s t : System A}
      → Reach control retry_ms s t
      → IsSound s.app.jobs s.workers
      → HasRoom t.app.jobs
      → HaveQueues s
      → HaveQueues t
  Reach-HaveQueues start sound room h = h
  Reach-HaveQueues (and_then {t} r e) sound room h =
      let before : HasRoom t.app.jobs = omega (arith, length-happen control retry_ms e t) in
      happen-HaveQueues e t (Reach-IsSound control retry_ms r sound before)
        (Reach-HaveQueues r sound before h)

-- In every state that a server reaches from its start while fewer than 2^32 - 2 jobs were created: the registry has the
-- queues it was started with, in their order, with their UUIDs and with everything of their configurations but the
-- lists of media, and the queue of every print worker is one of them.
pub reached-HaveQueues :
    {A : Type 0} (control : AdvertiserControl A) (retry_ms : Option ℕ) (opts : ServerOptions)
    (disk : Disk) (adv : Option A) (s : System A)
    → Reach control retry_ms (at_start opts disk adv) s
    → HasRoom s.app.jobs
    → (map fixed s.app.printers ≡ map fixed opts.printers) × All (HasQueue s.app.printers) s.workers
unfolding launch router_state
reached-HaveQueues control retry_ms opts disk adv s reached room = (
  fixed-Reach control retry_ms reached,
  Reach-HaveQueues control retry_ms reached (launch-IsSound control retry_ms opts disk adv) room tt,
)

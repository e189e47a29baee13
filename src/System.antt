-- ===== src/System.antt =====
-- src/server.rs and src/status.rs together: the tasks of a running server over the state that they share. A
-- request handler is one step, and so is an access of a print worker to shared state, and each part of a round of the
-- status poller: the snapshot, one answer, and the end. The registry is written to the file in two steps, by the workers,
-- the poller and the media form alike: a snapshot under the read lock, and the write, with any other steps between. The
-- change that the form makes under the write lock is a step before these two.
pub mod Spawned
pub mod Adverts
pub mod Alone
pub mod Canceled
pub mod Simulation
pub mod Projection
pub mod Queues
pub mod Ends
pub mod Persisted
pub mod Restart
pub mod Printers
pub mod Reached
pub mod Settled
pub mod Invariant
pub mod Workers
pub mod Evolving
pub mod Driving
pub mod Settling
use ipp_printer_app.Base.{
  Bool, List, Option, String, [], false, true, none, find, map, some, suc, zero, ℕ, ◌++◌, ◌||◌, ◌∷◌,
}
use ipp_printer_app.Device.{PollStatus}
use ipp_printer_app.Printer.{PrinterConfig, PrinterRecord, is_named}
use ipp_printer_app.Server.{AppState, write_state}
use ipp_printer_app.Server.Handler.{Env, PrintTask, Reply}
use ipp_printer_app.Server.Dispatch.{handle_ipp}
use ipp_printer_app.Server.MediaForm.{MediaForm, change_media}
use ipp_printer_app.Server.Worker.{Worker, Input, spawn_print_worker, step}
use ipp_printer_app.State.{PersistedState, Write, read_state}
use ipp_printer_app.Status.{AdvertiserControl, poll_one, polled_configs}

-- The poller waits for the next tick, or is in a round: the printers that it has left, and whether it saw some media
-- change (`media_changed`). After a round with such a change it holds the snapshot that it is about to write.
pub data Poller : Type 0 where
  waiting : Poller
  polling : List PrinterConfig → Bool → Poller
  saving : PersistedState → Poller

-- Where `persist` of a submitted form is: it has to read the registry, it holds what it read, or it has written it.
pub data Save : Type 0 where
  due : Save
  holding : PersistedState → Save
  saved : Save

-- The shared state, the print workers in the order in which they were spawned, the forms that changed a printer, in the
-- order in which they did, the poller, and the advertiser.
pub record System (A : Type 0) : Type 0 where
  pub app : AppState
  pub workers : List Worker
  pub saves : List Save
  pub poller : Poller
  pub adverts : Option A

-- What happens next: a request for a queue, a step of the worker at an index, the parts of a round of the poller, the
-- change that the form of a queue makes, or the two halves of `persist` of the form at an index. The arguments are what
-- comes from outside.
pub data Event : Type 0 where
  request : Env → String → List ℕ → Event
  work : ℕ → Input → Event
  begin_round : Event
  answer : Option PollStatus → Event
  end_round : Event
  write_round : Write → Event
  submit : String → MediaForm → Event
  read_save : ℕ → Event
  write_save : ℕ → Write → Event

-- What `Server::run` leaves when it starts to listen: no worker, and a poller that waits.
unfoldable pub launch : {A : Type 0} → AppState × Option A → System A
launch (st, adv) = record { app = st; workers = []; saves = []; poller = waiting; adverts = adv }

-- The worker of the index makes a step.
unfoldable pub work_at : ℕ → Input → List Worker → AppState → List Worker × AppState
unfolding step
work_at k i [] st = ([], st)
work_at zero i (w ∷ ws) st = let (w', st') = step i (w, st) in (w' ∷ ws, st')
work_at (suc k) i (w ∷ ws) st = let (ws', st') = work_at k i ws st in (w ∷ ws', st')

-- `persist` follows the change, when there was a printer to change.
abbrev pub save_of : Option PrinterRecord → List Save
save_of none = []
save_of (some rec) = due ∷ []

-- The form of the index reads the registry.
unfoldable pub read_at : ℕ → PersistedState → List Save → List Save
read_at k c [] = []
read_at zero c (due ∷ xs) = holding c ∷ xs
read_at zero c (holding d ∷ xs) = holding d ∷ xs
read_at zero c (saved ∷ xs) = saved ∷ xs
read_at (suc k) c (x ∷ xs) = x ∷ read_at k c xs

-- The form of the index writes what it read.
unfoldable pub write_at : ℕ → Write → List Save → AppState → List Save × AppState
write_at k write [] st = ([], st)
write_at zero write (due ∷ xs) st = (due ∷ xs, st)
write_at zero write (holding c ∷ xs) st = (saved ∷ xs, write_state write c st)
write_at zero write (saved ∷ xs) st = (saved ∷ xs, st)
write_at (suc k) write (x ∷ xs) st = let (xs', st') = write_at k write xs st in (x ∷ xs', st')

module _ {A : Type 0} (control : AdvertiserControl A) (retry_ms : Option ℕ) where
  -- A request, and the workers that it spawns.
  unfoldable pub serve : Reply → System A → System A
  unfolding spawn_print_worker
  serve r s = record s {
    app = r.state;
    workers =
        s.workers
        ++ map (λ (t : PrintTask). spawn_print_worker t.printer_name t.job retry_ms) r.spawned;
  }

  -- The snapshot of `poll_once`; a round begins only after the one before.
  unfoldable pub snapshot : Poller → System A → System A
  unfolding polled_configs
  snapshot waiting s = record s { poller = polling (polled_configs s.app.printers) false }
  snapshot (polling cfgs changed) s = s
  snapshot (saving c) s = s

  -- The answer for the next printer of the round.
  unfoldable pub next_answer : Option PollStatus → Poller → System A → System A
  unfolding poll_one
  next_answer a (polling (cfg ∷ cfgs) changed) s =
      let (printers, adv, change) = poll_one control cfg.name a (s.app.printers, s.adverts) in
      record s {
        app = record s.app { printers = printers };
        poller = polling cfgs (changed || change);
        adverts = adv;
      }
  next_answer a (polling [] changed) s = s
  next_answer a waiting s = s
  next_answer a (saving c) s = s

  -- The end of a round: the poller reads the registry to write it out if some media changed.
  unfoldable pub finish_round : Poller → System A → System A
  finish_round (polling [] true) s = record s { poller = saving (read_state s.app.printers) }
  finish_round (polling [] false) s = record s { poller = waiting }
  finish_round (polling (cfg ∷ cfgs) changed) s = s
  finish_round waiting s = s
  finish_round (saving c) s = s

  -- The poller writes what it read.
  unfoldable pub save_round : Write → Poller → System A → System A
  save_round write (saving c) s = record s { app = write_state write c s.app; poller = waiting }
  save_round write (polling cfgs changed) s = s
  save_round write waiting s = s

  unfoldable pub happen : Event → System A → System A
  unfolding serve handle_ipp work_at snapshot next_answer finish_round save_round change_media
      read_at write_at
  happen (request env name body) s = serve (handle_ipp env s.app name body) s
  happen (work k i) s =
      let (ws, st) = work_at k i s.workers s.app in record s { app = st; workers = ws }
  happen begin_round s = snapshot s.poller s
  happen (answer a) s = next_answer a s.poller s
  happen end_round s = finish_round s.poller s
  happen (write_round write) s = save_round write s.poller s
  happen (submit name form) s =
      let found : Option PrinterRecord = find (is_named name) s.app.printers in
      record s { app = (change_media s.app name form found).0; saves = s.saves ++ save_of found }
  happen (read_save k) s = record s { saves = read_at k (read_state s.app.printers) s.saves }
  happen (write_save k write) s =
      let (xs, st) = write_at k write s.saves s.app in record s { app = st; saves = xs }

  -- The states that any interleaving of the tasks reaches.
  pub data Reach (s : System A) : System A → Type 0 where
    start : Reach s s
    and_then : {t : System A} → Reach s t → (e : Event) → Reach s (happen e t)

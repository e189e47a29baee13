-- ===== src/System/Persisted.antt =====
-- src/server.rs, src/status.rs, src/state.rs: which snapshots of the registry of printers are on their way to the file.
pub mod Writers
pub mod Keeping
pub mod Events
use ipp_printer_app.Base.{
  true, Bool, List, All, Option, [], any, false, none, some, suc, zero, ℕ, ◌∷◌, ◌≡◌, ◌||◌, ◌⊎◌,
}
use ipp_printer_app.Printer.{PrinterRegistry}
use ipp_printer_app.Server.Worker.{Phase, write_out, Worker}
use ipp_printer_app.State.{Disk, PersistedState, write_ok, read_state}
use ipp_printer_app.System.{
  Poller, polling, saving, Save, due, holding, System, Event, work, end_round, write_round,
  read_save, write_save,
}

-- The file holds the configurations of the registry.
abbrev pub IsStored : PrinterRegistry → Disk → Type 0
IsStored ps disk = disk ≡ some (read_state ps)

-- A change of media was seen in the round of the poller, and the registry is not read yet to write it out.
abbrev pub is_dirty : Poller → Bool
is_dirty (polling cfgs changed) = changed
is_dirty _ = false

abbrev pub is_due : Save → Bool
is_due due = true
is_due _ = false

-- Some change of media is in the registry which its task has not read yet to write it out.
abbrev pub is_behind : {A : Type 0} → System A → Bool
is_behind s = is_dirty s.poller || any is_due s.saves

-- The snapshots that are read and not written yet: of a worker, of the poller, of a form.
abbrev pub phase_snapshot : Phase → Option PersistedState
phase_snapshot (write_out c) = some c
phase_snapshot _ = none

abbrev pub worker_snapshot : Worker → Option PersistedState
worker_snapshot w = phase_snapshot w.phase

abbrev pub poller_snapshot : Poller → Option PersistedState
poller_snapshot (saving c) = some c
poller_snapshot _ = none

abbrev pub save_snapshot : Save → Option PersistedState
save_snapshot (holding c) = some c
save_snapshot _ = none

abbrev pub is_read : Option PersistedState → Bool
is_read none = false
is_read (some c) = true

abbrev pub is_held : {T : Type 0} → (T → Option PersistedState) → T → Bool
is_held f x = is_read (f x)

-- Some task is between its reading of the registry and its write.
abbrev pub is_writing : {A : Type 0} → System A → Bool
is_writing s =
    any (is_held worker_snapshot) s.workers
    || (is_held poller_snapshot s.poller || any (is_held save_snapshot) s.saves)

-- The snapshot is of the registry as it is.
abbrev pub IsFresh : PersistedState → Option PersistedState → Type 0
IsFresh now none = Unit
IsFresh now (some c) = c ≡ now

-- What is read is of the registry as it is, and once it is written the file holds it.
pub record IsUpToDate {A : Type 0} (s : System A) : Type 0 where
  pub workers : All (λ w. IsFresh (read_state s.app.printers) (worker_snapshot w)) s.workers
  pub poller : IsFresh (read_state s.app.printers) (poller_snapshot s.poller)
  pub saves : All (λ x. IsFresh (read_state s.app.printers) (save_snapshot x)) s.saves
  pub stored : is_writing s ≡ false → IsStored s.app.printers s.app.disk

-- Every write of the event succeeds.
abbrev pub WritesOk : Event → Type 0
WritesOk (work k i) = i.write ≡ write_ok
WritesOk (write_round write) = write ≡ write_ok
WritesOk (write_save k write) = write ≡ write_ok
WritesOk _ = Unit

-- The poller is at the end of a round in which some media changed.
abbrev pub ends_dirty : Poller → Bool
ends_dirty (polling [] changed) = changed
ends_dirty _ = false

-- The form at the index has its registry to read.
abbrev pub is_due_at : ℕ → List Save → Bool
is_due_at k [] = false
is_due_at zero (x ∷ xs) = is_due x
is_due_at (suc k) (x ∷ xs) = is_due_at k xs

-- If the event is the poller or a form reading the registry to write out a change of media, then no task is between its
-- own reading and its write.
abbrev pub InTurn : {A : Type 0} → Event → System A → Type 0
InTurn end_round s = ends_dirty s.poller ≡ true → is_writing s ≡ false
InTurn (read_save k) s = is_due_at k s.saves ≡ true → is_writing s ≡ false
InTurn _ s = Unit

-- The file after a write, or as it was.
abbrev pub Written : PersistedState → Bool → Bool → Disk → Disk → Type 0
Written now before after disk disk' =
    (disk' ≡ some now) ⊎ ((disk' ≡ disk) × (after ≡ false → before ≡ false))

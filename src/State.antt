-- ===== src/State.antt =====
-- src/state.rs: the persisted printer list. A file that is missing, unreadable or not JSON of the expected
-- shape reads as `none`. What a file holds after an attempt to write it is up to the file system, an
-- argument of `persist`.
use ipp_printer_app.Base.{List, Option, String, [], if◌then◌else◌, map, none, not, some, ◌=ˢ◌, ◌∷◌}
use ipp_printer_app.Printer.{PrinterConfig, PrinterRecord}
use ipp_printer_app.Texts.{concat}

pub record PersistedState : Type 0 where
  pub printers : List PrinterConfig

-- A file, as `serde_json` reads it.
abbrev pub Disk : Type 0
Disk = Option PersistedState

-- `fs::create_dir_all`, `serde_json::to_string_pretty` and `fs::write`, whose error the callers drop.
abbrev pub Write : Type 0
Write = PersistedState → Disk → Disk

-- A write that succeeds and reads back.
abbrev pub write_ok : Write
write_ok s disk = some s

unfoldable pub load : Disk → PersistedState
load none = record { printers = [] }
load (some s) = s

-- The snapshot of the configurations that `persist` of src/server.rs takes under the read lock.
abbrev pub read_state : List PrinterRecord → PersistedState
read_state printers = record { printers = map (λ p. p.config) printers }

-- `persist` of src/server.rs where no other task runs between the snapshot and the write: the two are separate steps of
-- a print worker and of the tasks of a running server.
unfoldable pub persist : Write → List PrinterRecord → Disk → Disk
persist write printers disk = write (read_state printers) disk

abbrev pub default_to : String → Option String → String
default_to d none = d
default_to d (some s) = s

-- `default_state_path`, over the values of `XDG_STATE_HOME` and `HOME`.
unfoldable pub default_state_path : Option String → Option String → String → String
default_state_path xdg home app_id =
    let fallback =
      concat (default_to "/tmp" home ∷ "/.local/state/" ∷ app_id ∷ ".state.json" ∷ []) in
    elim xdg [
      | none ↦ fallback
      | some dir ↦
          if not (dir =ˢ "") then concat (dir ∷ "/" ∷ app_id ∷ ".state.json" ∷ []) else fallback
    ]

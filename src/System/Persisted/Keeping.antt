-- ===== src/System/Persisted/Keeping.antt =====
-- src/server.rs, src/status.rs, src/state.rs: when the snapshots and the file stay those of the registry of printers.
use ipp_printer_app.Base.{
  map, true, arith, List, All, Option, [], ap, false, inl, inr, sym, some, ℕ, ◌∷◌, ◌≡◌, ◌∙◌,
}
use mathlib.Core.Path.{subst}
use ipp_printer_app.Server.{AppState}
use ipp_printer_app.State.{PersistedState, read_state}
use ipp_printer_app.System.{System}
use ipp_printer_app.System.Persisted.{
  IsStored, worker_snapshot, poller_snapshot, save_snapshot, is_writing, IsFresh, IsUpToDate,
  Written,
}
use ipp_printer_app.Status.Poll.{configs}
use ipp_printer_app.Server.Handler.{PrintTask}
use ipp_printer_app.Server.Worker.{spawn_print_worker}
use ipp_printer_app.System.Persisted.Writers.{none_held}

-- A new worker holds nothing.
pub spawned-AreFresh :
    (now : PersistedState) (retry_ms : Option ℕ) (ts : List PrintTask)
    → All
        (λ w. IsFresh now (worker_snapshot w))
        (map (λ (t : PrintTask). spawn_print_worker t.printer_name t.job retry_ms) ts)
unfolding spawn_print_worker
spawned-AreFresh now retry_ms [] = tt
spawned-AreFresh now retry_ms (t ∷ ts) = (tt, spawned-AreFresh now retry_ms ts)

module _ {A : Type 0} where
  -- The configurations are as they were, and the file is, or holds them.
  pub still-IsUpToDate :
      (s s' : System A)
      → configs s'.app.printers ≡ configs s.app.printers
      → All (λ w. IsFresh (read_state s.app.printers) (worker_snapshot w)) s'.workers
      → IsFresh (read_state s.app.printers) (poller_snapshot s'.poller)
      → All (λ x. IsFresh (read_state s.app.printers) (save_snapshot x)) s'.saves
      → Written (read_state s.app.printers) (is_writing s) (is_writing s') s.app.disk s'.app.disk
      → (is_writing s ≡ false → IsStored s.app.printers s.app.disk)
      → IsUpToDate s'
  still-IsUpToDate s s' same ws p xs written h =
      let now : read_state s'.app.printers ≡ read_state s.app.printers =
        ap (λ cfgs. record { printers = cfgs }) same in
      record {
        workers = subst (λ c. All (λ w. IsFresh c (worker_snapshot w)) s'.workers) (sym now) ws;
        poller = subst (λ c. IsFresh c (poller_snapshot s'.poller)) (sym now) p;
        saves = subst (λ c. All (λ x. IsFresh c (save_snapshot x)) s'.saves) (sym now) xs;
        stored = λ quiet. elim written [
          | inl new ↦ new ∙ ap some (sym now)
          | inr (disk, back) ↦ disk ∙ h (back quiet) ∙ ap some (sym now)
        ];
      }

  -- A task reads the registry to write it out, when no other is about to write.
  pub read-IsUpToDate :
      (s s' : System A)
      → s'.app ≡ s.app
      → s'.workers ≡ s.workers
      → is_writing s ≡ false
      → IsFresh (read_state s.app.printers) (poller_snapshot s'.poller)
      → All (λ x. IsFresh (read_state s.app.printers) (save_snapshot x)) s'.saves
      → is_writing s' ≡ true
      → IsUpToDate s'
  read-IsUpToDate s s' same workers quiet p xs busy =
      let now : read_state s'.app.printers ≡ read_state s.app.printers =
        ap (λ (st : AppState). read_state st.printers) same in
      record {
        workers =
            none_held worker_snapshot (read_state s'.app.printers) s'.workers
              (rw workers (ground arith));
        poller = subst (λ c. IsFresh c (poller_snapshot s'.poller)) (sym now) p;
        saves = subst (λ c. All (λ x. IsFresh c (save_snapshot x)) s'.saves) (sym now) xs;
        stored = λ idle. absurd (ground arith);
      }

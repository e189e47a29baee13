-- ===== src/System/Persisted/Writers.antt =====
-- src/server.rs: what a step of a print worker or of a submitted form does to the snapshots and to the file.
use ipp_printer_app.Base.{
  true, arith, Bool, Bool-cases, List, All, Option, [], any, ap, false, inl, inr, none, refl, some,
  suc, update_first, zero, ℕ, ◌∷◌, ◌≡◌, ◌||◌, ◌++◌, ◌∙◌, ◌==◌, if◌then◌else◌,
}
use ipp_printer_app.Printer.{
  PrinterRecord, PrinterRegistry, is_named, set_printer_processing, set_printer_idle,
}
use ipp_printer_app.Server.{
  AppState, set_printer_reasons, set_printer_idle_named, set_printer_processing_named,
}
use ipp_printer_app.Job.{is_canceled}
use ipp_printer_app.Raster.{JobOutcome}
use ipp_printer_app.Server.Worker.{
  Phase, mark_printer, check, call, complete_reasons, complete_idle, complete_check, fail_reasons,
  fail_idle, hold_reasons, sleep, after_loop, cancel_reasons, cancel_idle, save, write_out, Worker,
  Input, act, step, after_call,
}
use ipp_printer_app.State.{Disk, PersistedState, Write, write_ok, read_state}
use ipp_printer_app.System.{Save, due, holding, saved, read_at, write_at, work_at}
use ipp_printer_app.System.Persisted.{
  is_due, phase_snapshot, worker_snapshot, save_snapshot, is_read, is_held, IsFresh, is_due_at,
  Written,
}
use ipp_printer_app.Status.Poll.{configs}

configs-update_first :
    (p : PrinterRecord → Bool) (f : PrinterRecord → PrinterRecord) (ps : PrinterRegistry)
    → ((r : PrinterRecord) → (f r).config ≡ r.config)
    → configs (update_first p f ps) ≡ configs ps
configs-update_first p f [] k = refl
configs-update_first p f (x ∷ ps) k = elim (Bool-cases (p x)) [
  | inl hit ↦ rw hit (ap (λ c. c ∷ configs ps) (k x))
  | inr miss ↦ rw miss (ap (λ t. x.config ∷ t) (configs-update_first p f ps k))
]

-- A step of a worker leaves the configurations as they are.
configs-act :
    (p : Phase) (i : Input) (w : Worker) (st : AppState)
    → configs (act p i w st).1.printers ≡ configs st.printers
unfolding act set_printer_reasons set_printer_idle_named set_printer_processing_named
configs-act mark_printer i w st =
    configs-update_first (is_named w.name) set_printer_processing st.printers
      (λ r. unfold set_printer_processing in refl)
configs-act complete_reasons i w st =
    configs-update_first (is_named w.name) _ st.printers (λ r. refl)
configs-act complete_idle i w st =
    configs-update_first (is_named w.name) set_printer_idle st.printers
      (λ r. unfold set_printer_idle in refl)
configs-act (fail_reasons f) i w st =
    configs-update_first (is_named w.name) _ st.printers (λ r. refl)
configs-act (fail_idle f) i w st =
    configs-update_first (is_named w.name) set_printer_idle st.printers
      (λ r. unfold set_printer_idle in refl)
configs-act (hold_reasons reasons) i w st =
    configs-update_first (is_named w.name) _ st.printers (λ r. refl)
configs-act cancel_reasons i w st = configs-update_first (is_named w.name) _ st.printers (λ r. refl)
configs-act cancel_idle i w st =
    configs-update_first (is_named w.name) set_printer_idle st.printers
      (λ r. unfold set_printer_idle in refl)
configs-act _ i w st = refl

pub configs-work_at :
    (k : ℕ) (i : Input) (ws : List Worker) (st : AppState)
    → configs (work_at k i ws st).1.printers ≡ configs st.printers
unfolding work_at step
configs-work_at k i [] st = refl
configs-work_at zero i (w ∷ ws) st = configs-act w.phase i w st
configs-work_at (suc k) i (w ∷ ws) st = configs-work_at k i ws st

if-IsFresh :
    (now : PersistedState) (b : Bool) (v w : Worker)
    → IsFresh now (worker_snapshot v)
    → IsFresh now (worker_snapshot w)
    → IsFresh now (worker_snapshot (if b then v else w))
if-IsFresh now true v w h k = h
if-IsFresh now false v w h k = k

-- What a worker holds after a step is of the registry as it is.
act-IsFresh :
    (p : Phase) (i : Input) (w : Worker) (st : AppState)
    → IsFresh (read_state st.printers) (worker_snapshot (act p i w st).0)
unfolding act
act-IsFresh check i w st = if-IsFresh (read_state st.printers) (is_canceled w.job st.jobs) _ _ tt tt
act-IsFresh call i w st = called i.outcome
  where
    called : (o : JobOutcome) → IsFresh (read_state st.printers) (worker_snapshot (after_call o w))
    called JobOutcome.completed = tt
    called (JobOutcome.failed f) = tt
    called (JobOutcome.device_unavailable reasons) = tt
act-IsFresh complete_check i w st =
    if-IsFresh (read_state st.printers) (is_canceled w.job st.jobs) _ _ tt tt
act-IsFresh (sleep left) i w st =
    if-IsFresh (read_state st.printers) (is_canceled w.job st.jobs) _ _ tt
      (if-IsFresh (read_state st.printers) (left == 0) _ _ tt tt)
act-IsFresh after_loop i w st =
    if-IsFresh (read_state st.printers) (is_canceled w.job st.jobs) _ _ tt tt
act-IsFresh save i w st = refl
act-IsFresh _ i w st = tt

act-Written :
    (now : PersistedState) (p : Phase) (i : Input) (w : Worker) (st : AppState)
    → i.write ≡ write_ok
    → IsFresh now (phase_snapshot p)
    → Written now
        (is_read (phase_snapshot p))
        (is_held worker_snapshot (act p i w st).0)
        st.disk
        (act p i w st).1.disk
unfolding act set_printer_reasons set_printer_idle_named set_printer_processing_named
act-Written now (write_out c) i w st ok_ h = inl (ap (λ (f : Write). f c st.disk) ok_ ∙ ap some h)
act-Written now _ i w st ok_ h = inr (refl, λ after. refl)

pub Written-left :
    (now : PersistedState) (b a x : Bool) (disk disk' : Disk)
    → Written now b a disk disk'
    → Written now (b || x) (a || x) disk disk'
Written-left now b a x disk disk' (inl new) = inl new
Written-left now b a x disk disk' (inr (same, back)) = inr (same, λ e. ground arith)

pub Written-right :
    (now : PersistedState) (b a x : Bool) (disk disk' : Disk)
    → Written now b a disk disk'
    → Written now (x || b) (x || a) disk disk'
Written-right now b a x disk disk' (inl new) = inl new
Written-right now b a x disk disk' (inr (same, back)) = inr (same, λ e. ground arith)

pub work_at-IsFresh :
    (k : ℕ) (i : Input) (ws : List Worker) (st : AppState)
    → All (λ w. IsFresh (read_state st.printers) (worker_snapshot w)) ws
    → All (λ w. IsFresh (read_state st.printers) (worker_snapshot w)) (work_at k i ws st).0
unfolding work_at step
work_at-IsFresh k i [] st h = tt
work_at-IsFresh zero i (w ∷ ws) st h = (act-IsFresh w.phase i w st, h.1)
work_at-IsFresh (suc k) i (w ∷ ws) st h = (h.0, work_at-IsFresh k i ws st h.1)

pub work_at-Written :
    (now : PersistedState) (k : ℕ) (i : Input) (ws : List Worker) (st : AppState)
    → i.write ≡ write_ok
    → All (λ w. IsFresh now (worker_snapshot w)) ws
    → Written now
        (any (is_held worker_snapshot) ws)
        (any (is_held worker_snapshot) (work_at k i ws st).0)
        st.disk
        (work_at k i ws st).1.disk
unfolding work_at step
work_at-Written now k i [] st ok_ h = inr (refl, λ e. e)
work_at-Written now zero i (w ∷ ws) st ok_ h =
    Written-left now _ _ (any (is_held worker_snapshot) ws) st.disk _
      (act-Written now w.phase i w st ok_ h.0)
work_at-Written now (suc k) i (w ∷ ws) st ok_ h =
    Written-right now _ _ (is_held worker_snapshot w) st.disk _
      (work_at-Written now k i ws st ok_ h.1)

pub read_at-IsFresh :
    (now : PersistedState) (k : ℕ) (xs : List Save)
    → All (λ x. IsFresh now (save_snapshot x)) xs
    → All (λ x. IsFresh now (save_snapshot x)) (read_at k now xs)
unfolding read_at
read_at-IsFresh now k [] h = tt
read_at-IsFresh now zero (due ∷ xs) h = (refl, h.1)
read_at-IsFresh now zero (holding c ∷ xs) h = h
read_at-IsFresh now zero (saved ∷ xs) h = h
read_at-IsFresh now (suc k) (x ∷ xs) h = (h.0, read_at-IsFresh now k xs h.1)

-- A form that reads is then about to write.
pub read_at-due :
    (now : PersistedState) (k : ℕ) (xs : List Save)
    → is_due_at k xs ≡ true
    → any (is_held save_snapshot) (read_at k now xs) ≡ true
unfolding read_at
read_at-due now k [] h = cc h
read_at-due now zero (due ∷ xs) h = refl
read_at-due now zero (holding c ∷ xs) h = refl
read_at-due now zero (saved ∷ xs) h = cc h
read_at-due now (suc k) (x ∷ xs) h = ground (arith, read_at-due now k xs h)

pub read_at-idle :
    (now : PersistedState) (k : ℕ) (xs : List Save) → is_due_at k xs ≡ false → read_at k now xs ≡ xs
unfolding read_at
read_at-idle now k [] h = refl
read_at-idle now zero (due ∷ xs) h = cc h
read_at-idle now zero (holding c ∷ xs) h = refl
read_at-idle now zero (saved ∷ xs) h = refl
read_at-idle now (suc k) (x ∷ xs) h = ap (λ ys. x ∷ ys) (read_at-idle now k xs h)

pub write_at-IsFresh :
    (now : PersistedState) (k : ℕ) (write : Write) (xs : List Save) (st : AppState)
    → All (λ x. IsFresh now (save_snapshot x)) xs
    → All (λ x. IsFresh now (save_snapshot x)) (write_at k write xs st).0
unfolding write_at
write_at-IsFresh now k write [] st h = tt
write_at-IsFresh now zero write (due ∷ xs) st h = h
write_at-IsFresh now zero write (holding c ∷ xs) st h = (tt, h.1)
write_at-IsFresh now zero write (saved ∷ xs) st h = h
write_at-IsFresh now (suc k) write (x ∷ xs) st h = (h.0, write_at-IsFresh now k write xs st h.1)

pub write_at-due :
    (k : ℕ) (write : Write) (xs : List Save) (st : AppState)
    → any is_due (write_at k write xs st).0 ≡ any is_due xs
unfolding write_at
write_at-due k write [] st = refl
write_at-due zero write (due ∷ xs) st = refl
write_at-due zero write (holding c ∷ xs) st = refl
write_at-due zero write (saved ∷ xs) st = refl
write_at-due (suc k) write (x ∷ xs) st = ap (λ b. is_due x || b) (write_at-due k write xs st)

pub write_at-Written :
    (now : PersistedState) (k : ℕ) (write : Write) (xs : List Save) (st : AppState)
    → write ≡ write_ok
    → All (λ x. IsFresh now (save_snapshot x)) xs
    → Written now
        (any (is_held save_snapshot) xs)
        (any (is_held save_snapshot) (write_at k write xs st).0)
        st.disk
        (write_at k write xs st).1.disk
unfolding write_at
write_at-Written now k write [] st ok_ h = inr (refl, λ e. e)
write_at-Written now zero write (due ∷ xs) st ok_ h = inr (refl, λ e. e)
write_at-Written now zero write (holding c ∷ xs) st ok_ h =
    inl (ap (λ (f : Write). f c st.disk) ok_ ∙ ap some h.0)
write_at-Written now zero write (saved ∷ xs) st ok_ h = inr (refl, λ e. e)
write_at-Written now (suc k) write (x ∷ xs) st ok_ h =
    Written-right now _ _ (is_held save_snapshot x) st.disk _
      (write_at-Written now k write xs st ok_ h.1)

pub not_read :
    (now : PersistedState) (o : Option PersistedState) → is_read o ≡ false → IsFresh now o
not_read now none h = tt
not_read now (some c) h = cc h

pub none_held :
    {T : Type 0} (f : T → Option PersistedState) (now : PersistedState) (xs : List T)
    → any (is_held f) xs ≡ false
    → All (λ x. IsFresh now (f x)) xs
none_held f now [] h = tt
none_held f now (x ∷ xs) h = (not_read now (f x) (ground arith), none_held f now xs (ground arith))

pub any-append :
    {T : Type 0} (f : T → Bool) (xs ys : List T) → any f (xs ++ ys) ≡ false → any f xs ≡ false
any-append f [] ys h = refl
any-append f (x ∷ xs) ys h = ground (arith, any-append f xs ys)

pub any-append_last :
    {T : Type 0} (f : T → Bool) (xs : List T) (x : T) → f x ≡ true → any f (xs ++ x ∷ []) ≡ true
any-append_last f [] x h = rw h refl
any-append_last f (y ∷ xs) x h = ground (arith, any-append_last f xs x h)

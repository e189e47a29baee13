-- ===== src/System/Persisted/Events.antt =====
-- src/server.rs, src/status.rs, src/state.rs: that the file keeps up with the registry of printers.
use ipp_printer_app.Base.{
  All-append, map, true, arith, Bool-cases, List, Option, String, [], any, ap, false, inl, inr,
  none, refl, sym, some, ℕ, ◌∷◌, ◌≡◌, ◌||◌, ◌++◌, ◌∙◌,
}
use mathlib.Core.Path.{subst}
use ipp_printer_app.Device.{PollStatus}
use ipp_printer_app.Printer.{PrinterRecord}
use ipp_printer_app.Server.{AppState}
use ipp_printer_app.Server.Dispatch.{handle_ipp}
use ipp_printer_app.Server.Dispatch.Frame.{IsLawful}
use ipp_printer_app.Server.Dispatch.Requests.{handle_ipp-IsLawful}
use ipp_printer_app.Server.MediaForm.{MediaForm, change_media}
use ipp_printer_app.Server.Worker.{Input}
use ipp_printer_app.State.{PersistedState, Write, write_ok, read_state}
use ipp_printer_app.System.{
  Poller, save_of, waiting, polling, saving, due, System, Event, request, work, begin_round, answer,
  end_round, write_round, submit, read_save, write_save, serve,
}
use ipp_printer_app.System.Persisted.{
  is_dirty, is_due, is_behind, worker_snapshot, poller_snapshot, save_snapshot, is_held, is_writing,
  IsFresh, IsUpToDate, WritesOk, ends_dirty, is_due_at, InTurn,
}
use ipp_printer_app.Status.{AdvertiserControl}
use ipp_printer_app.Status.Poll.{configs, configs-poll_one}
use ipp_printer_app.System.{
  snapshot, next_answer, finish_round, save_round, happen, Reach, start, and_then,
}
use ipp_printer_app.System.Reached.{write_at-only_disk}
use ipp_printer_app.Server.Handler.{Env, PrintTask}
use ipp_printer_app.Server.Worker.{spawn_print_worker}
use ipp_printer_app.System.Persisted.Writers.{
  configs-work_at, Written-right, work_at-IsFresh, work_at-Written, read_at-IsFresh, read_at-due,
  read_at-idle, write_at-IsFresh, write_at-due, write_at-Written, not_read, none_held, any-append,
  any-append_last, Written-left,
}
use ipp_printer_app.System.Persisted.Keeping.{spawned-AreFresh, still-IsUpToDate, read-IsUpToDate}

module _ {A : Type 0} (control : AdvertiserControl A) (retry_ms : Option ℕ) where
  Kept : Event → System A → Type 0
  Kept e s =
      WritesOk e
      → InTurn e s
      → (is_behind s ≡ false → IsUpToDate s)
      → is_behind (happen control retry_ms e s) ≡ false
      → IsUpToDate (happen control retry_ms e s)

  request-Kept :
      (env : Env) (name : String) (body : List ℕ) (s : System A) → Kept (request env name body) s
  unfolding Kept happen serve
  request-Kept env name body s ok_ turn h clean =
      let law : IsLawful s.app name (handle_ipp env s.app name body) =
        handle_ipp-IsLawful env s.app name body in
      let k : IsUpToDate s = h clean in
      let s' : System A = happen control retry_ms (request env name body) s in
      let new =
        map (λ (t : PrintTask). spawn_print_worker t.printer_name t.job retry_ms)
          (handle_ipp env s.app name body).spawned in
      still-IsUpToDate s s' (ap (λ (st : AppState). configs st.printers) law.effect)
        (All-append (λ w. IsFresh (read_state s.app.printers) (worker_snapshot w)) s.workers new
          k.workers (spawned-AreFresh _ retry_ms _))
        k.poller k.saves
        (inr (
          ap (λ (st : AppState). st.disk) law.effect,
          λ quiet.
              let before = any-append (is_held worker_snapshot) s.workers new (ground arith) in
              ground arith,
        ))
        k.stored

  work-Kept : (k : ℕ) (i : Input) (s : System A) → Kept (work k i) s
  unfolding Kept happen
  work-Kept k i s ok_ turn h clean =
      let u : IsUpToDate s = h clean in
      still-IsUpToDate s (happen control retry_ms (work k i) s)
        (configs-work_at k i s.workers s.app) (work_at-IsFresh k i s.workers s.app u.workers)
        u.poller u.saves
        (Written-left _ _ _ _ s.app.disk _ (work_at-Written _ k i s.workers s.app ok_ u.workers))
        u.stored

  -- The poller goes on, with the file as it is.
  poller-IsUpToDate :
      (p p' : Poller) (s s' : System A)
      → s.poller ≡ p
      → s'.poller ≡ p'
      → configs s'.app.printers ≡ configs s.app.printers
      → s'.app.disk ≡ s.app.disk
      → s'.workers ≡ s.workers
      → s'.saves ≡ s.saves
      → is_held poller_snapshot p ≡ false
      → is_held poller_snapshot p' ≡ false
      → IsUpToDate s
      → IsUpToDate s'
  poller-IsUpToDate p p' s s' e e' same disk workers saves none_ none' u =
      still-IsUpToDate s s' same (rw workers u.workers)
        (rw e' (not_read _ (poller_snapshot p') none')) (rw saves u.saves)
        (inr (disk, λ quiet. let later = rw (e', workers, saves) at quiet in rw e (ground arith)))
        u.stored

  snapshot-Kept :
      (p : Poller) (s : System A)
      → s.poller ≡ p
      → (is_behind s ≡ false → IsUpToDate s)
      → is_behind (snapshot control retry_ms p s) ≡ false
      → IsUpToDate (snapshot control retry_ms p s)
  unfolding snapshot
  snapshot-Kept waiting s e h clean =
      poller-IsUpToDate waiting _ s _ e refl refl refl refl refl refl refl (h (rw e clean))
  snapshot-Kept (polling cfgs changed) s e h clean = h clean
  snapshot-Kept (saving c) s e h clean = h clean

  next_answer-Kept :
      (a : Option PollStatus) (p : Poller) (s : System A)
      → s.poller ≡ p
      → (is_behind s ≡ false → IsUpToDate s)
      → is_behind (next_answer control retry_ms a p s) ≡ false
      → IsUpToDate (next_answer control retry_ms a p s)
  unfolding next_answer
  next_answer-Kept a waiting s e h clean = h clean
  next_answer-Kept a (saving c) s e h clean = h clean
  next_answer-Kept a (polling [] changed) s e h clean = h clean
  next_answer-Kept a (polling (cfg ∷ cfgs) changed) s e h clean =
      let before : is_behind s ≡ false = rw e (ground arith) in
      poller-IsUpToDate (polling (cfg ∷ cfgs) changed) _ s
        (next_answer control retry_ms a (polling (cfg ∷ cfgs) changed) s) e refl
        (configs-poll_one control cfg.name a s.app.printers s.adverts (ground arith)) refl refl refl
        refl refl (h before)

  finish_round-Kept :
      (p : Poller) (s : System A)
      → s.poller ≡ p
      → (ends_dirty p ≡ true → is_writing s ≡ false)
      → (is_behind s ≡ false → IsUpToDate s)
      → is_behind (finish_round control retry_ms p s) ≡ false
      → IsUpToDate (finish_round control retry_ms p s)
  unfolding finish_round
  finish_round-Kept waiting s e turn h clean = h clean
  finish_round-Kept (saving c) s e turn h clean = h clean
  finish_round-Kept (polling (cfg ∷ cfgs) changed) s e turn h clean = h clean
  finish_round-Kept (polling [] false) s e turn h clean =
      poller-IsUpToDate (polling [] false) _ s _ e refl refl refl refl refl refl refl
        (h (rw e clean))
  finish_round-Kept (polling [] true) s e turn h clean =
      let quiet : is_writing s ≡ false = turn refl in
      read-IsUpToDate s _ refl refl quiet refl (none_held save_snapshot _ s.saves (ground arith))
        (ground arith)

  save_round-Kept :
      (write : Write) (p : Poller) (s : System A)
      → s.poller ≡ p
      → write ≡ write_ok
      → (is_behind s ≡ false → IsUpToDate s)
      → is_behind (save_round control retry_ms write p s) ≡ false
      → IsUpToDate (save_round control retry_ms write p s)
  unfolding save_round
  save_round-Kept write waiting s e ok_ h clean = h clean
  save_round-Kept write (polling cfgs changed) s e ok_ h clean = h clean
  save_round-Kept write (saving c) s e ok_ h clean =
      let u : IsUpToDate s = h (rw e clean) in
      let fresh : c ≡ read_state s.app.printers = rw e at u.poller in
      still-IsUpToDate s _ refl u.workers tt u.saves
        (inl (ap (λ (f : Write). f c s.app.disk) ok_ ∙ ap some fresh)) u.stored

  -- A form, by what it found.
  abbrev after_form : String → MediaForm → System A → Option PrinterRecord → System A
  after_form name form s o = record s {
    app = (change_media s.app name form o).0;
    saves = s.saves ++ save_of o;
  }

  change-Kept :
      (name : String) (form : MediaForm) (s : System A) (o : Option PrinterRecord)
      → (is_behind s ≡ false → IsUpToDate s)
      → is_behind (after_form name form s o) ≡ false
      → IsUpToDate (after_form name form s o)
  unfolding change_media
  change-Kept name form s none h clean =
      let due_before : any is_due s.saves ≡ false = any-append is_due s.saves [] (ground arith) in
      let u : IsUpToDate s = h (ground arith) in
      still-IsUpToDate s (after_form name form s none) refl u.workers u.poller
        (All-append (λ x. IsFresh (read_state s.app.printers) (save_snapshot x)) s.saves [] u.saves
          tt)
        (inr (
          refl,
          λ quiet.
              let before = any-append (is_held save_snapshot) s.saves [] (ground arith) in
              ground arith,
        ))
        u.stored
  change-Kept name form s (some rec) h clean =
      absurd (ground (arith, any-append_last is_due s.saves due refl))

  read_save-Kept : (k : ℕ) (s : System A) → Kept (read_save k) s
  unfolding Kept happen
  read_save-Kept k s ok_ turn h clean = elim (Bool-cases (is_due_at k s.saves)) [
    | inl mine ↦
        let quiet : is_writing s ≡ false = turn mine in
        let now : PersistedState = read_state s.app.printers in
        read-IsUpToDate s _ refl refl quiet (not_read now (poller_snapshot s.poller) (ground arith))
          (read_at-IsFresh now k s.saves (none_held save_snapshot now s.saves (ground arith)))
          (ground (arith, read_at-due now k s.saves mine))
    | inr other ↦
        let same = read_at-idle (read_state s.app.printers) k s.saves other in
        subst
          (λ xs. is_behind (record s { saves = xs }) ≡ false → IsUpToDate (record s { saves = xs }))
          (sym same) h clean
  ]

  write_save-Kept : (k : ℕ) (write : Write) (s : System A) → Kept (write_save k write) s
  unfolding Kept happen
  write_save-Kept k write s ok_ turn h clean =
      let u : IsUpToDate s =
        h (ap (λ b. is_dirty s.poller || b) (sym (write_at-due k write s.saves s.app)) ∙ clean) in
      still-IsUpToDate s (happen control retry_ms (write_save k write) s)
        (ap (λ (st : AppState). configs st.printers) (write_at-only_disk k write s.saves s.app))
        u.workers u.poller (write_at-IsFresh _ k write s.saves s.app u.saves)
        (Written-right _ _ _ _ s.app.disk _ (
          Written-right _ _ _ _ s.app.disk _
            (write_at-Written _ k write s.saves s.app ok_ u.saves)))
        u.stored

  happen-Kept : (e : Event) (s : System A) → Kept e s
  unfolding Kept happen
  happen-Kept (request env name body) s ok_ turn h clean =
      request-Kept env name body s ok_ turn h clean
  happen-Kept (work k i) s ok_ turn h clean = work-Kept k i s ok_ turn h clean
  happen-Kept begin_round s ok_ turn h clean = snapshot-Kept s.poller s refl h clean
  happen-Kept (answer a) s ok_ turn h clean = next_answer-Kept a s.poller s refl h clean
  happen-Kept end_round s ok_ turn h clean = finish_round-Kept s.poller s refl turn h clean
  happen-Kept (write_round write) s ok_ turn h clean =
      save_round-Kept write s.poller s refl ok_ h clean
  happen-Kept (submit name form) s ok_ turn h clean = change-Kept name form s _ h clean
  happen-Kept (read_save k) s ok_ turn h clean = read_save-Kept k s ok_ turn h clean
  happen-Kept (write_save k write) s ok_ turn h clean = write_save-Kept k write s ok_ turn h clean

  -- Every write on the way succeeds.
  abbrev pub AllWritesOk : {s t : System A} → Reach control retry_ms s t → Type 0
  AllWritesOk start = Unit
  AllWritesOk (and_then r e) = AllWritesOk r × WritesOk e

  -- Whenever on the way the poller or a form reads the registry to write out a change of media, no task is between its
  -- own reading and its write.
  abbrev pub AllInTurn : {s t : System A} → Reach control retry_ms s t → Type 0
  AllInTurn start = Unit
  AllInTurn (and_then {t} r e) = AllInTurn r × InTurn e t

  pub Reach-IsUpToDate :
      {s t : System A} (r : Reach control retry_ms s t)
      → AllWritesOk r
      → AllInTurn r
      → (is_behind s ≡ false → IsUpToDate s)
      → is_behind t ≡ false
      → IsUpToDate t
  unfolding Kept
  Reach-IsUpToDate start ok_ turns h = h
  Reach-IsUpToDate (and_then {t} r e) ok_ turns h =
      happen-Kept e t ok_.1 turns.1 (Reach-IsUpToDate r ok_.0 turns.0 h)

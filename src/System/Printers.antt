-- ===== src/System/Printers.antt =====
-- src/server.rs, src/status.rs, src/printer.rs: what no task of a running server changes of the printers.
use ipp_printer_app.Base.{
  false, true, ◌∙◌, find, Bool, Bool-cases, List, Option, String, [], ap, inl, inr, map, none, refl,
  some, suc, update_first, zero, ℕ, ◌∷◌, ◌≡◌,
}
use ipp_printer_app.Device.{PollStatus, ReadyMedia}
use ipp_printer_app.Printer.{
  PrinterConfig, PrinterRecord, PrinterRegistry, is_named, is_first, drop_media, insert_media,
  learn_media, set_ready_media, position,
}
use ipp_printer_app.Server.{
  AppState, set_printer_reasons, set_printer_idle_named, set_printer_processing_named,
  persist_state,
}
use ipp_printer_app.Server.Dispatch.{handle_ipp}
use ipp_printer_app.Server.Dispatch.Frame.{IsLawful}
use ipp_printer_app.Server.Dispatch.Requests.{handle_ipp-IsLawful}
use ipp_printer_app.Server.MediaForm.{MediaForm, change_media, requested_media}
use ipp_printer_app.Server.Worker.{
  Phase, mark_printer, complete_reasons, complete_idle, fail_reasons, fail_idle, hold_reasons,
  cancel_reasons, cancel_idle, Worker, Input, act, step,
}
use ipp_printer_app.State.{Write}
use ipp_printer_app.Status.{AdvertiserControl, apply_status, learn, poll_one}
use ipp_printer_app.System.Reached.{write_at-only_disk}
use ipp_printer_app.System.{
  Poller, waiting, polling, saving, System, Event, request, work, begin_round, answer, end_round,
  write_round, submit, read_save, write_save, work_at, serve, snapshot, next_answer, finish_round,
  save_round, happen, Reach, start, and_then,
}

-- The UUID and the configuration without its media lists.
abbrev pub fixed : PrinterRecord → String × PrinterConfig
fixed p = (p.uuid, record p.config { media_names = []; media_sizes = [] })

abbrev pub Keeps : (PrinterRecord → PrinterRecord) → Type 0
Keeps f = (p : PrinterRecord) → fixed (f p) ≡ fixed p

pub fixed-update_first :
    (p : PrinterRecord → Bool) (f : PrinterRecord → PrinterRecord) (ps : PrinterRegistry)
    → Keeps f
    → map fixed (update_first p f ps) ≡ map fixed ps
fixed-update_first p f [] k = refl
fixed-update_first p f (x ∷ ps) k = elim (Bool-cases (p x)) [
  | inl hit ↦ rw hit (ap (λ y. y ∷ map fixed ps) (k x))
  | inr miss ↦ rw miss (ap (λ t. fixed x ∷ t) (fixed-update_first p f ps k))
]

abbrev bare : PrinterConfig → PrinterConfig
bare cfg = record cfg { media_names = []; media_sizes = [] }

bare-drop_media : (p : Option ℕ) (cfg : PrinterConfig) → bare (drop_media p cfg) ≡ bare cfg
unfolding drop_media
bare-drop_media none cfg = refl
bare-drop_media (some i) cfg = refl

bare-learn_media :
    (media : ReadyMedia) (cfg : PrinterConfig) → bare (learn_media media cfg) ≡ bare cfg
unfolding learn_media insert_media
bare-learn_media media cfg = elim (Bool-cases (is_first media.name cfg.media_names)) [
  | inl front ↦ rw front refl
  | inr behind ↦ rw behind (bare-drop_media (position media.name cfg.media_names) cfg)
]

set_ready_media-Keeps : (media : ReadyMedia) → Keeps (λ p. (set_ready_media media p).0)
unfolding set_ready_media
set_ready_media-Keeps media p = ap (λ c. (p.uuid, c)) (bare-learn_media media p.config)

apply_status-Keeps : (s : PollStatus) → Keeps (λ p. (apply_status s p).0)
unfolding apply_status set_ready_media
apply_status-Keeps s p = go s.ready_media refl
  where
    go : (m : Option ReadyMedia) → s.ready_media ≡ m → fixed (apply_status s p).0 ≡ fixed p
    go none e = rw (e, learn) refl
    go (some media) e = rw (e, learn) (ap (λ c. (p.uuid, c)) (bare-learn_media media p.config))

fixed-act :
    (p : Phase) (i : Input) (w : Worker) (st : AppState)
    → map fixed (act p i w st).1.printers ≡ map fixed st.printers
unfolding act set_printer_reasons set_printer_idle_named set_printer_processing_named persist_state
fixed-act mark_printer i w st = fixed-update_first (is_named w.name) _ st.printers (λ p. refl)
fixed-act complete_reasons i w st = fixed-update_first (is_named w.name) _ st.printers (λ p. refl)
fixed-act complete_idle i w st = fixed-update_first (is_named w.name) _ st.printers (λ p. refl)
fixed-act (fail_reasons f) i w st = fixed-update_first (is_named w.name) _ st.printers (λ p. refl)
fixed-act (fail_idle f) i w st = fixed-update_first (is_named w.name) _ st.printers (λ p. refl)
fixed-act (hold_reasons reasons) i w st =
    fixed-update_first (is_named w.name) _ st.printers (λ p. refl)
fixed-act cancel_reasons i w st = fixed-update_first (is_named w.name) _ st.printers (λ p. refl)
fixed-act cancel_idle i w st = fixed-update_first (is_named w.name) _ st.printers (λ p. refl)
fixed-act _ i w st = refl

fixed-work_at :
    (k : ℕ) (i : Input) (ws : List Worker) (st : AppState)
    → map fixed (work_at k i ws st).1.printers ≡ map fixed st.printers
unfolding work_at step
fixed-work_at k i [] st = refl
fixed-work_at zero i (w ∷ ws) st = fixed-act w.phase i w st
fixed-work_at (suc k) i (w ∷ ws) st = fixed-work_at k i ws st

module _ {A : Type 0} (control : AdvertiserControl A) (retry_ms : Option ℕ) where
  fixed-poll_one :
      (name : String) (a : Option PollStatus) (ps : PrinterRegistry) (adv : Option A)
      → map fixed (poll_one control name a (ps, adv)).0 ≡ map fixed ps
  unfolding poll_one
  fixed-poll_one name none ps adv = refl
  fixed-poll_one name (some s) ps adv =
      fixed-update_first (is_named name) _ ps (apply_status-Keeps s)

  fixed-snapshot :
      (p : Poller) (s : System A)
      → map fixed (snapshot control retry_ms p s).app.printers ≡ map fixed s.app.printers
  unfolding snapshot
  fixed-snapshot waiting s = refl
  fixed-snapshot (polling cfgs changed) s = refl
  fixed-snapshot (saving c) s = refl

  fixed-next_answer :
      (a : Option PollStatus) (p : Poller) (s : System A)
      → map fixed (next_answer control retry_ms a p s).app.printers ≡ map fixed s.app.printers
  unfolding next_answer
  fixed-next_answer a waiting s = refl
  fixed-next_answer a (saving c) s = refl
  fixed-next_answer a (polling [] changed) s = refl
  fixed-next_answer a (polling (cfg ∷ cfgs) changed) s =
      fixed-poll_one cfg.name a s.app.printers s.adverts

  fixed-finish_round :
      (p : Poller) (s : System A)
      → map fixed (finish_round control retry_ms p s).app.printers ≡ map fixed s.app.printers
  unfolding finish_round
  fixed-finish_round waiting s = refl
  fixed-finish_round (polling [] true) s = refl
  fixed-finish_round (polling [] false) s = refl
  fixed-finish_round (polling (cfg ∷ cfgs) changed) s = refl
  fixed-finish_round (saving c) s = refl

  fixed-save_round :
      (write : Write) (p : Poller) (s : System A)
      → map fixed (save_round control retry_ms write p s).app.printers ≡ map fixed s.app.printers
  unfolding save_round
  fixed-save_round write waiting s = refl
  fixed-save_round write (polling cfgs changed) s = refl
  fixed-save_round write (saving c) s = refl

  fixed-change_media :
      (st : AppState) (name : String) (form : MediaForm) (o : Option PrinterRecord)
      → map fixed (change_media st name form o).0.printers ≡ map fixed st.printers
  unfolding change_media
  fixed-change_media st name form none = refl
  fixed-change_media st name form (some rec) =
      fixed-update_first (is_named name) _ st.printers
        (set_ready_media-Keeps (requested_media form))

  pub fixed-happen :
      (e : Event) (s : System A)
      → map fixed (happen control retry_ms e s).app.printers ≡ map fixed s.app.printers
  unfolding happen serve
  fixed-happen (request env name body) s =
      let law : IsLawful s.app name (handle_ipp env s.app name body) =
        handle_ipp-IsLawful env s.app name body in
      rw law.effect refl
  fixed-happen (work k i) s = fixed-work_at k i s.workers s.app
  fixed-happen begin_round s = fixed-snapshot s.poller s
  fixed-happen (answer a) s = fixed-next_answer a s.poller s
  fixed-happen end_round s = fixed-finish_round s.poller s
  fixed-happen (write_round write) s = fixed-save_round write s.poller s
  fixed-happen (submit name form) s =
      fixed-change_media s.app name form (find (is_named name) s.app.printers)
  fixed-happen (read_save k) s = refl
  fixed-happen (write_save k write) s =
      ap (λ (st : AppState). map fixed st.printers) (write_at-only_disk k write s.saves s.app)

  -- Whatever tasks run: the queues stay the same, in their order, with their UUIDs and with everything of their
  -- configurations but the lists of media.
  pub fixed-Reach :
      {s t : System A}
      → Reach control retry_ms s t
      → map fixed t.app.printers ≡ map fixed s.app.printers
  fixed-Reach start = refl
  fixed-Reach (and_then {t} r e) = fixed-happen e t ∙ fixed-Reach r

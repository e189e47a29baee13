-- ===== src/Mdns/Rounds.antt =====
-- src/status.rs with src/mdns.rs: the rounds of the poller on the advertiser.
use ipp_printer_app.Base.{
  All, Bool, Bool-cases, List, Option, String, [], ap, false, find, if◌then◌else◌, inl, inr, none,
  not, refl, some, sym, true, update_first, ℕ, ◌==◌, ◌=ˢ◌, ◌∙◌, ◌∷◌, ◌≡◌,
}
use ipp_printer_app.Device.{PollStatus, ReadyMedia}
use ipp_printer_app.Printer.{
  PrinterConfig, PrinterRecord, PrinterRegistry, is_named, is_first, position, display_label,
  drop_media, insert_media, learn_media, set_ready_media,
}
use ipp_printer_app.Status.{
  learn, apply_status, reachable, reconcile, reconcile_opt, poll_one, poll_each, poll_once,
  polled_configs, Round, poll_interval, poll_loop, spawn, tick,
}
use ipp_printer_app.State.{Disk, Write}
use ipp_printer_app.Status.Apply.{apply_status-KeepsName}
use ipp_printer_app.Mdns.{Advertiser, MdnsCrate, is_advertised}
use ipp_printer_app.Mdns.Control.{control}
use ipp_printer_app.Mdns.Live.{
  IsDaemon, IsInSync, IsOwned, fullname, publish-IsInSync, withdraw-IsInSync,
}

display_label-drop_media :
    (i : Option ℕ) (cfg : PrinterConfig) → display_label (drop_media i cfg) ≡ display_label cfg
unfolding drop_media display_label
display_label-drop_media none cfg = refl
display_label-drop_media (some i) cfg = refl

display_label-learn_media :
    (media : ReadyMedia) (cfg : PrinterConfig)
    → display_label (learn_media media cfg) ≡ display_label cfg
unfolding learn_media insert_media display_label
display_label-learn_media media cfg = elim (Bool-cases (is_first media.name cfg.media_names)) [
  | inl front ↦ rw front
  | inr behind ↦ rw behind (display_label-drop_media (position media.name cfg.media_names) cfg)
]

fullname-apply_status :
    (s : PollStatus) (rec : PrinterRecord)
    → fullname (apply_status s rec).0.config ≡ fullname rec.config
unfolding apply_status set_ready_media
fullname-apply_status s rec = go s.ready_media refl
  where
    go :
        (m : Option ReadyMedia)
        → s.ready_media ≡ m
        → fullname (apply_status s rec).0.config ≡ fullname rec.config
    go none e = rw (e, learn)
    go (some media) e = rw (e, learn, display_label-learn_media media rec.config)

module _ {D I N : Type 0} (crate : MdnsCrate D I N) (live : D → String → Bool)
    (daemon : IsDaemon crate live) (owner : String → String) where
  abbrev pub AllOwned : PrinterRegistry → Type 0
  AllOwned ps = All (λ (p : PrinterRecord). IsOwned crate live daemon owner p.config) ps

  -- Nothing is said where there is no advertiser.
  abbrev pub InSync : Option (Advertiser D N) → Type 0
  InSync none = Unit
  InSync (some a) = IsInSync crate live daemon owner a

  apply_status-IsOwned :
      (s : PollStatus) (p : PrinterRecord)
      → IsOwned crate live daemon owner p.config
      → IsOwned crate live daemon owner (apply_status s p).0.config
  apply_status-IsOwned s p own =
      ap (λ f. owner (daemon.key f)) (fullname-apply_status s p)
      ∙ own
      ∙ sym (apply_status-KeepsName s p)

  update-AllOwned :
      (name : String) (s : PollStatus) (ps : PrinterRegistry)
      → AllOwned ps
      → AllOwned (update_first (is_named name) (λ rec. (apply_status s rec).0) ps)
  update-AllOwned name s [] own = tt
  update-AllOwned name s (p ∷ ps) own = elim (Bool-cases (p.config.name =ˢ name)) [
    | inl hit ↦ rw hit (apply_status-IsOwned s p own.0, own.1)
    | inr miss ↦ rw miss (own.0, update-AllOwned name s ps own.1)
  ]

  abbrev Owned? : Option PrinterRecord → Type 0
  Owned? none = Unit
  Owned? (some p) = IsOwned crate live daemon owner p.config

  find-Owned :
      (name : String) (ps : PrinterRegistry) → AllOwned ps → Owned? (find (is_named name) ps)
  find-Owned name [] own = tt
  find-Owned name (p ∷ ps) own = elim (Bool-cases (p.config.name =ˢ name)) [
    | inl hit ↦ rw hit own.0
    | inr miss ↦ rw miss (find-Owned name ps own.1)
  ]

  if-InSync :
      (c : Bool) {x y : Advertiser D N}
      → IsInSync crate live daemon owner x
      → IsInSync crate live daemon owner y
      → IsInSync crate live daemon owner (if c then x else y)
  if-InSync true h k = h
  if-InSync false h k = k

  reconcile-InSync :
      (up : Bool) (snapshot : Option PrinterRecord) (name : String) (adv : Option (Advertiser D N))
      → Owned? snapshot
      → InSync adv
      → InSync (reconcile_opt (control crate) up snapshot name adv)
  unfolding reconcile control
  reconcile-InSync up snapshot name none own sync = tt
  reconcile-InSync true none name (some a) own sync = sync
  reconcile-InSync true (some rec) name (some a) own sync =
      if-InSync (not (is_advertised crate name a))
        (publish-IsInSync crate live daemon owner rec a own sync) sync
  reconcile-InSync false snapshot name (some a) own sync =
      if-InSync (is_advertised crate name a) (withdraw-IsInSync crate live daemon owner name a sync)
        sync

  pub poll_one-InSync :
      (name : String) (answer : Option PollStatus) (ps : PrinterRegistry)
      (adv : Option (Advertiser D N))
      → AllOwned ps
      → InSync adv
      → let (ps', adv', changed) = poll_one (control crate) name answer (ps, adv) in
        AllOwned ps' × InSync adv'
  unfolding poll_one
  poll_one-InSync name none ps adv own sync = (own, sync)
  poll_one-InSync name (some s) ps adv own sync =
      let own' = update-AllOwned name s ps own in
      (
        own',
        reconcile-InSync (reachable s) _ name adv
            (find-Owned name (update_first (is_named name) (λ rec. (apply_status s rec).0) ps) own')
            sync,
      )

  poll_each-InSync :
      (answer : PrinterConfig → Option PollStatus) (cfgs : List PrinterConfig)
      (ps : PrinterRegistry) (adv : Option (Advertiser D N))
      → AllOwned ps
      → InSync adv
      → let (ps', adv', changed) = poll_each (control crate) answer cfgs (ps, adv) in
        AllOwned ps' × InSync adv'
  unfolding poll_each
  poll_each-InSync answer [] ps adv own sync = (own, sync)
  poll_each-InSync answer (cfg ∷ cfgs) ps adv own sync =
      let (own', sync') = poll_one-InSync cfg.name (answer cfg) ps adv own sync in
      poll_each-InSync answer cfgs _ _ own' sync'

  poll_once-InSync :
      (answer : PrinterConfig → Option PollStatus) (ps : PrinterRegistry)
      (adv : Option (Advertiser D N))
      → AllOwned ps
      → InSync adv
      → let (ps', adv', changed) = poll_once (control crate) answer (ps, adv) in
        AllOwned ps' × InSync adv'
  unfolding poll_once
  poll_once-InSync answer ps adv own sync =
      poll_each-InSync answer (polled_configs ps) ps adv own sync

  -- What other tasks do before a round leaves each printer with a service of its own.
  abbrev pub KeepsOwned : Round → Type 0
  KeepsOwned r =
      (ps : PrinterRegistry) (disk : Disk) → AllOwned ps → AllOwned (r.others (ps, disk)).0

  poll_loop-InSync :
      (write : Write) (rounds : List Round) (ps : PrinterRegistry) (adv : Option (Advertiser D N))
      (disk : Disk)
      → All KeepsOwned rounds
      → AllOwned ps
      → InSync adv
      → InSync (poll_loop (control crate) write rounds (ps, adv, disk)).1
  unfolding poll_loop tick
  poll_loop-InSync write [] ps adv disk keeps own sync = sync
  poll_loop-InSync write (r ∷ rs) ps adv disk keeps own sync =
      let own' = keeps.0 ps disk own in
      let (owned, synced) = poll_once-InSync r.answer (r.others (ps, disk)).0 adv own' sync in
      poll_loop-InSync write rs _ _ _ keeps.1 owned synced

  -- However long the poller runs, and whatever other tasks write between its rounds, a daemon that does what mdns-sd
  -- documents answers for exactly the services that the advertiser remembers, if it did at the start and if each
  -- printer's service always belongs to its name alone.
  pub spawn-InSync :
      (write : Write) (poll_secs : Option ℕ) (rounds : List Round) (ps : PrinterRegistry)
      (adv : Option (Advertiser D N)) (disk : Disk)
      → All KeepsOwned rounds
      → AllOwned ps
      → InSync adv
      → InSync (spawn (control crate) write poll_secs rounds (ps, adv, disk)).1
  unfolding spawn
  spawn-InSync write poll_secs rounds ps adv disk keeps own sync =
      elim (Bool-cases (poll_interval poll_secs == 0)) [
        | inl panics ↦ rw panics sync
        | inr runs ↦ rw runs (poll_loop-InSync write rounds ps adv disk keeps own sync)
      ]

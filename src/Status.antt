-- ===== src/Status.antt =====
-- src/status.rs: the background status poller. One answer of the backend is applied in one step; the answers
-- themselves, and the advertiser behind its trait, are arguments.
pub mod Apply
pub mod Poll
use ipp_printer_app.Base.{
  Bool, List, Option, String, [], false, find, if◌then◌else◌, keep, map, none, not, some, true,
  update_first, ◌=ˢ◌, ◌||◌, ◌∷◌, ◌==◌, ℕ, ◌≡◌,
}
use ipp_printer_app.Flags.{contains}
use ipp_printer_app.Flags.Reason
use ipp_printer_app.Device.{PollStatus, ReadyMedia}
use ipp_printer_app.Printer.{
  PrinterConfig, PrinterRecord, PrinterRegistry, IppPrinterState, idle, processing, stopped,
  is_named, set_ready_media,
}
use ipp_printer_app.State.{Disk, Write, persist}

-- The trait `AdvertiserControl` over a state `A`, and what the poller relies on: `registers rec` says
-- whether a registration of this record goes through.
pub record AdvertiserControl (A : Type 0) : Type 0 where
  pub publish : PrinterRecord → A → A
  pub withdraw : String → A → A
  pub is_advertised : String → A → Bool
  pub registers : PrinterRecord → A → Bool
  pub is_advertised-publish :
      (rec : PrinterRecord) (name : String) (a : A)
      → is_advertised name (publish rec a) ≡ (
          if rec.config.name =ˢ name
          then is_advertised name a || registers rec a
          else is_advertised name a)
  pub is_advertised-withdraw :
      (gone name : String) (a : A)
      → is_advertised name (withdraw gone a)
        ≡ (if gone =ˢ name then false else is_advertised name a)

unfoldable pub reachable : PollStatus → Bool
reachable s = not (contains s.reasons Reason.offline)

abbrev pub want : PollStatus → IppPrinterState
want s = if reachable s then idle else stopped

abbrev pub learn : Option ReadyMedia → PrinterRecord → PrinterRecord × Bool
learn none rec = (rec, false)
learn (some media) rec = set_ready_media media rec

abbrev pub or_else {ℓ} : {A : Type ℓ} → Option A → Option A → Option A
or_else none b = b
or_else (some a) b = some a

-- What one answer makes of the record, under the write lock, and whether the media changed. The code's tests
-- `rec.reasons != status.reasons` and `rec.state != want` skip writes of the value already there.
unfoldable pub apply_status : PollStatus → PrinterRecord → PrinterRecord × Bool
unfolding reachable
apply_status s rec =
    let (learned, changed) =
      learn s.ready_media (record rec { reasons = s.reasons; state = want s }) in
    (record learned { supply_percent = or_else s.supply_percent learned.supply_percent }, changed)

-- Whether the answer changed the media of the record that was found.
abbrev pub media_change : PollStatus → Option PrinterRecord → Bool
media_change s none = false
media_change s (some rec) = (apply_status s rec).1

-- The printers that a round polls.
abbrev pub is_polled : IppPrinterState → Bool
is_polled idle = true
is_polled stopped = true
is_polled processing = false

unfoldable pub polled_configs : PrinterRegistry → List PrinterConfig
polled_configs printers = map (λ p. p.config) (keep (λ p. is_polled p.state) printers)

-- The seconds between two rounds, from the value of `IPP_PRINTER_APP_POLL_SECS`, when it parses.
abbrev pub poll_interval : Option ℕ → ℕ
poll_interval none = 30
poll_interval (some secs) = secs

-- What other tasks do to the registry and the file before a round, and the answers of the round.
pub record Round : Type 0 where
  pub others : PrinterRegistry × Disk → PrinterRegistry × Disk
  pub answer : PrinterConfig → Option PollStatus

module _ {A : Type 0} (control : AdvertiserControl A) where
  -- The advert is made to follow reachability. `snapshot` is the record as the answer left it.
  unfoldable pub reconcile : Bool → Option PrinterRecord → String → A → A
  reconcile true none name a = a
  reconcile true (some rec) name a =
      if not (control.is_advertised name a) then control.publish rec a else a
  reconcile false snapshot name a =
      if control.is_advertised name a then control.withdraw name a else a

  abbrev pub reconcile_opt : Bool → Option PrinterRecord → String → Option A → Option A
  reconcile_opt up snapshot name none = none
  reconcile_opt up snapshot name (some a) = some (reconcile up snapshot name a)

  -- One printer of a round, from the answer of `poll_status` on.
  unfoldable pub poll_one :
      String → Option PollStatus → PrinterRegistry × Option A → PrinterRegistry × Option A × Bool
  poll_one name none (printers, adv) = (printers, adv, false)
  poll_one name (some s) (printers, adv) =
      let found = find (is_named name) printers in
      let printers' = update_first (is_named name) (λ rec. (apply_status s rec).0) printers in
      (
        printers',
        reconcile_opt (reachable s) (find (is_named name) printers') name adv,
        media_change s found,
      )

  -- The loop of `poll_once` over the snapshot of configurations.
  unfoldable pub poll_each :
      (PrinterConfig → Option PollStatus)
      → List PrinterConfig
      → PrinterRegistry × Option A
      → PrinterRegistry × Option A × Bool
  poll_each answer [] (printers, adv) = (printers, adv, false)
  poll_each answer (cfg ∷ cfgs) c =
      let (printers, adv, changed) = poll_one cfg.name (answer cfg) c in
      let (printers', adv', later) = poll_each answer cfgs (printers, adv) in
      (printers', adv', changed || later)

  unfoldable pub poll_once :
      (PrinterConfig → Option PollStatus)
      → PrinterRegistry × Option A
      → PrinterRegistry × Option A × Bool
  poll_once answer (printers, adv) = poll_each answer (polled_configs printers) (printers, adv)

  -- A tick of the loop in `spawn`, where no other task runs during it: a round, and the registry is written out if some
  -- media changed. The parts of a round are separate steps among the tasks of a running server.
  unfoldable pub tick :
      Write
      → (PrinterConfig → Option PollStatus)
      → PrinterRegistry × Option A × Disk
      → PrinterRegistry × Option A × Disk
  tick write answer (printers, adv, disk) =
      let (printers', adv', changed) = poll_once answer (printers, adv) in
      (printers', adv', if changed then persist write printers' disk else disk)

  -- The loop of `spawn`, over the rounds until the task is aborted.
  unfoldable pub poll_loop :
      Write → List Round → PrinterRegistry × Option A × Disk → PrinterRegistry × Option A × Disk
  unfolding tick
  poll_loop write [] c = c
  poll_loop write (r ∷ rs) (printers, adv, disk) =
      let (printers', disk') = r.others (printers, disk) in
      poll_loop write rs (tick write r.answer (printers', adv, disk'))

  -- `tokio::time::interval` panics at a period of zero, which ends the task before its first round.
  unfoldable pub spawn :
      Write
      → Option ℕ
      → List Round
      → PrinterRegistry × Option A × Disk
      → PrinterRegistry × Option A × Disk
  unfolding poll_loop
  spawn write poll_secs rounds c =
      if poll_interval poll_secs == 0 then c else poll_loop write rounds c

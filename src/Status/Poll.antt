-- ===== src/Status/Poll.antt =====
-- src/status.rs: a whole round of the poller, and a tick of its loop.
use ipp_printer_app.Base.{
  eq_refl, All, Bool-cases, List, Option, String, [], arith, false, find, inl, inr, map, none, refl,
  some, true, update_first, ◌=ˢ◌, ◌&&◌, ◌∙◌, ◌∷◌, ◌≡◌,
}
use mathlib.Core.Option
use ipp_printer_app.Device.{PollStatus}
use ipp_printer_app.Printer.{PrinterConfig, PrinterRecord, PrinterRegistry, processing, is_named}
use ipp_printer_app.Printer.Registry.{find-update_named}
use ipp_printer_app.State.{Disk, write_ok, persist}
use ipp_printer_app.Status.{
  AdvertiserControl, is_polled, media_change, apply_status, polled_configs, poll_one, poll_each,
  poll_once, tick,
}
use ipp_printer_app.Status.Apply.{
  apply_status-KeepsName, apply_status_same_config, apply_status_fields,
}

abbrev pub configs : PrinterRegistry → List PrinterConfig
configs printers = map (λ p. p.config) printers

-- No printer of the name is idle or stopped.
abbrev pub IsBusy : String → PrinterRegistry → Type 0
IsBusy name printers =
    All (λ (p : PrinterRecord). (p.config.name =ˢ name && is_polled p.state) ≡ false) printers

module _ {A : Type 0} (control : AdvertiserControl A) where
  poll_one_other :
      (name other : String) (answer : Option PollStatus) (printers : PrinterRegistry)
      (adv : Option A)
      → (name =ˢ other) ≡ false
      → find (is_named other) (poll_one control name answer (printers, adv)).0
        ≡ find (is_named other) printers
  unfolding poll_one
  poll_one_other name other none printers adv apart = refl
  poll_one_other name other (some s) printers adv apart =
      find-update_named name other (λ p. (apply_status s p).0) printers (apply_status-KeepsName s)
      ∙ rw apart refl

  poll_each_other :
      (answer : PrinterConfig → Option PollStatus) (other : String) (cfgs : List PrinterConfig)
      (printers : PrinterRegistry) (adv : Option A)
      → All (λ cfg. (cfg.name =ˢ other) ≡ false) cfgs
      → find (is_named other) (poll_each control answer cfgs (printers, adv)).0
        ≡ find (is_named other) printers
  unfolding poll_each
  poll_each_other answer other [] printers adv apart = refl
  poll_each_other answer other (cfg ∷ cfgs) printers adv apart =
      poll_each_other answer other cfgs _ _ apart.1
      ∙ poll_one_other cfg.name other (answer cfg) printers adv apart.0

  polled_configs_apart :
      (name : String) (printers : PrinterRegistry)
      → IsBusy name printers
      → All (λ cfg. (cfg.name =ˢ name) ≡ false) (polled_configs printers)
  unfolding polled_configs
  polled_configs_apart name [] busy = tt
  polled_configs_apart name (p ∷ printers) busy = elim (Bool-cases (is_polled p.state)) [
    | inl polled ↦ rw polled (ground (arith, busy.0), polled_configs_apart name printers busy.1)
    | inr skipped ↦ rw skipped (polled_configs_apart name printers busy.1)
  ]

  -- A round does not touch a printer that is processing when the round begins, if no idle or stopped printer
  -- has its name and no other task runs between.
  pub poll_once_busy :
      (answer : PrinterConfig → Option PollStatus) (name : String) (printers : PrinterRegistry)
      (adv : Option A)
      → IsBusy name printers
      → find (is_named name) (poll_once control answer (printers, adv)).0
        ≡ find (is_named name) printers
  unfolding poll_once
  poll_once_busy answer name printers adv busy =
      poll_each_other answer name (polled_configs printers) printers adv
        (polled_configs_apart name printers busy)

  configs-update :
      (name : String) (s : PollStatus) (printers : PrinterRegistry)
      → media_change s (find (is_named name) printers) ≡ false
      → configs (update_first (is_named name) (λ rec. (apply_status s rec).0) printers)
        ≡ configs printers
  configs-update name s [] h = refl
  configs-update name s (p ∷ printers) h = elim (Bool-cases (p.config.name =ˢ name)) [
    | inl hit ↦
        let quiet : (apply_status s p).1 ≡ false = rw hit at h in
        rw (hit, apply_status_same_config s p quiet)
    | inr miss ↦ rw (miss, configs-update name s printers (rw miss at h))
  ]

  pub configs-poll_one :
      (name : String) (answer : Option PollStatus) (printers : PrinterRegistry) (adv : Option A)
      → (poll_one control name answer (printers, adv)).2 ≡ false
      → configs (poll_one control name answer (printers, adv)).0 ≡ configs printers
  unfolding poll_one
  configs-poll_one name none printers adv h = refl
  configs-poll_one name (some s) printers adv h = configs-update name s printers h

  configs-poll_each :
      (answer : PrinterConfig → Option PollStatus) (cfgs : List PrinterConfig)
      (printers : PrinterRegistry) (adv : Option A)
      → (poll_each control answer cfgs (printers, adv)).2 ≡ false
      → configs (poll_each control answer cfgs (printers, adv)).0 ≡ configs printers
  unfolding poll_each
  configs-poll_each answer [] printers adv h = refl
  configs-poll_each answer (cfg ∷ cfgs) printers adv h =
      configs-poll_each answer cfgs _ _ (ground arith)
      ∙ configs-poll_one cfg.name (answer cfg) printers adv (ground arith)

  configs-poll_once :
      (answer : PrinterConfig → Option PollStatus) (printers : PrinterRegistry) (adv : Option A)
      → (poll_once control answer (printers, adv)).2 ≡ false
      → configs (poll_once control answer (printers, adv)).0 ≡ configs printers
  unfolding poll_once
  configs-poll_once answer printers adv h =
      configs-poll_each answer (polled_configs printers) printers adv h

  -- After a tick whose write succeeds, the file holds the configurations of the registry, if it did before:
  -- a change of media that a poll reports outlives the process.
  pub tick-persisted :
      (answer : PrinterConfig → Option PollStatus) (printers : PrinterRegistry) (adv : Option A)
      (disk : Disk)
      → disk ≡ some (record { printers = configs printers })
      → let (printers', adv', disk') = tick control write_ok answer (printers, adv, disk) in
        disk' ≡ some (record { printers = configs printers' })
  unfolding tick persist
  tick-persisted answer printers adv disk saved =
      elim (Bool-cases (poll_once control answer (printers, adv)).2) [
        | inl changed ↦ rw changed
        | inr quiet ↦
            let kept : configs (poll_once control answer (printers, adv)).0 ≡ configs printers =
              configs-poll_once answer printers adv quiet in
            rw (quiet, kept) saved
      ]

  -- An answer that arrives after a job has started on the printer takes the printer out of `Processing`: the
  -- state is set by the answer alone.
  pub poll_one_disturbs :
      (name : String) (s : PollStatus) (printers : PrinterRegistry) (adv : Option A)
      (rec : PrinterRecord)
      → find (is_named name) printers ≡ some rec
      → rec.state ≡ processing
      → Option.map
          (λ (p : PrinterRecord). is_polled p.state)
          (find (is_named name) (poll_one control name (some s) (printers, adv)).0)
        ≡ some true
  unfolding poll_one
  poll_one_disturbs name s printers adv rec found busy =
      let after : find (is_named name)
            (update_first (is_named name) (λ p. (apply_status s p).0) printers)
          ≡ some (apply_status s rec).0 =
        find-update_named name name (λ p. (apply_status s p).0) printers (apply_status-KeepsName s)
        ∙ rw (eq_refl name, found) refl in
      rw after (ground (arith, (apply_status_fields s rec).1))

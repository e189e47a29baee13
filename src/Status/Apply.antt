-- ===== src/Status/Apply.antt =====
-- src/status.rs: what one answer of the backend makes of a printer and of its advert.
use ipp_printer_app.Base.{
  Bool-cases, inl, inr, update_first, ◌∙◌, eq_refl, eq_iff, ◌||◌, ◌=ˢ◌, arith, Bool, ◌&&◌, find,
  true, if◌then◌else◌, false, String, Option, none, refl, some, ◌≡◌,
}
use mathlib.Core.Option
use ipp_printer_app.Device.{PollStatus, ReadyMedia}
use ipp_printer_app.Printer.{
  PrinterRecord, PrinterRegistry, idle, stopped, is_named, set_ready_media, is_first,
}
use ipp_printer_app.Printer.Registry.{
  KeepsName, find-is_named, find-update_named, name-learn_media, learn_media_front,
}
use ipp_printer_app.Status.{
  AdvertiserControl, reachable, learn, or_else, apply_status, reconcile, poll_one,
}

pub apply_status-KeepsName : (s : PollStatus) → KeepsName (λ rec. (apply_status s rec).0)
unfolding apply_status set_ready_media
apply_status-KeepsName s p = go s.ready_media refl
  where
    go :
        (m : Option ReadyMedia)
        → s.ready_media ≡ m
        → (apply_status s p).0.config.name ≡ p.config.name
    go none e = rw (e, learn)
    go (some media) e = rw (e, learn) (name-learn_media media p.config)

-- The loaded media that a record shows after an answer: that of the answer, else the last one known.
abbrev pub media_after : Option ReadyMedia → Option ReadyMedia → Option ReadyMedia
media_after none old = old
media_after (some m) old = some m

-- An answer replaces the reasons, sets the state by reachability alone, and carries the last known media and
-- supply level forward where it omits them.
pub apply_status_fields :
    (s : PollStatus) (rec : PrinterRecord)
    → ((apply_status s rec).0.reasons ≡ s.reasons)
      × ((apply_status s rec).0.state ≡ (if reachable s then idle else stopped))
      × ((apply_status s rec).0.ready_media ≡ media_after s.ready_media rec.ready_media)
      × ((apply_status s rec).0.supply_percent ≡ or_else s.supply_percent rec.supply_percent)
      × ((apply_status s rec).0.uuid ≡ rec.uuid)
unfolding apply_status set_ready_media
apply_status_fields s rec = go s.ready_media refl
  where
    go :
        (m : Option ReadyMedia)
        → s.ready_media ≡ m
        → ((apply_status s rec).0.reasons ≡ s.reasons)
          × ((apply_status s rec).0.state ≡ (if reachable s then idle else stopped))
          × ((apply_status s rec).0.ready_media ≡ media_after s.ready_media rec.ready_media)
          × ((apply_status s rec).0.supply_percent ≡ or_else s.supply_percent rec.supply_percent)
          × ((apply_status s rec).0.uuid ≡ rec.uuid)
    go none e = rw (e, learn) (refl, refl, refl, refl, refl)
    go (some media) e = rw (e, learn) (refl, refl, refl, refl, refl)

-- An answer that reports no change of media leaves the configuration as it was.
pub apply_status_same_config :
    (s : PollStatus) (rec : PrinterRecord)
    → (apply_status s rec).1 ≡ false
    → (apply_status s rec).0.config ≡ rec.config
unfolding apply_status set_ready_media
apply_status_same_config s rec h = go s.ready_media refl
  where
    go : (m : Option ReadyMedia) → s.ready_media ≡ m → (apply_status s rec).0.config ≡ rec.config
    go none e = rw (e, learn)
    go (some media) e =
        let quiet : (apply_status s rec).1 ≡ false = h in
        let front : is_first media.name rec.config.media_names ≡ true = ground arith in
        rw (e, learn) (learn_media_front media rec.config front)

module _ {A : Type 0} (control : AdvertiserControl A) where
  -- After an answer for a printer that the registry has, its advert follows reachability: an unreachable
  -- printer is not advertised, a reachable one is, if it was or if its registration goes through.
  pub reconcile_follows :
      (s : PollStatus) (rec : PrinterRecord) (name : String) (a : A)
      → rec.config.name ≡ name
      → control.is_advertised name (reconcile control (reachable s) (some rec) name a)
        ≡ (reachable s && (control.is_advertised name a || control.registers rec a))
  unfolding reconcile
  reconcile_follows s rec name a same = ground (
    arith,
    control.is_advertised-publish rec name a,
    control.is_advertised-withdraw name name a,
    eq_iff rec.config.name name,
    eq_refl name,
  )

  reconcile_other :
      (up : Bool) (rec : PrinterRecord) (name other : String) (a : A)
      → rec.config.name ≡ name
      → (name =ˢ other) ≡ false
      → control.is_advertised other (reconcile control up (some rec) name a)
        ≡ control.is_advertised other a
  unfolding reconcile
  reconcile_other true rec name other a same apart = ground (
    arith,
    control.is_advertised-publish rec other a,
    eq_iff rec.config.name other,
    eq_iff name other,
  )
  reconcile_other false rec name other a same apart =
      ground (arith, control.is_advertised-withdraw name other a)

  abbrev pub advertised : String → Option A → Bool
  advertised name none = false
  advertised name (some a) = control.is_advertised name a

  -- One polled printer: its record becomes what the answer makes of it, every other record stays, its advert
  -- follows reachability, and no other advert changes.
  pub poll_one_updates :
      (name other : String) (s : PollStatus) (printers : PrinterRegistry) (a : A)
      (rec : PrinterRecord)
      → find (is_named name) printers ≡ some rec
      → let (printers', adv', changed) = poll_one control name (some s) (printers, some a) in
        (find (is_named other) printers' ≡ (
          if name =ˢ other
          then Option.map (λ p. (apply_status s p).0) (find (is_named other) printers)
          else find (is_named other) printers))
        × (advertised name adv' ≡ (
            reachable s
            && (control.is_advertised name a || control.registers (apply_status s rec).0 a)))
        × (advertised other adv' ≡ (
            if name =ˢ other
            then reachable s
              && (control.is_advertised name a || control.registers (apply_status s rec).0 a)
            else control.is_advertised other a))
        × (changed ≡ (apply_status s rec).1)
  unfolding poll_one
  poll_one_updates name other s printers a rec found =
      let keeps = apply_status-KeepsName s in
      let after : PrinterRecord = (apply_status s rec).0 in
      let named : after.config.name ≡ name = keeps rec ∙ find-is_named name printers rec found in
      let found' : find (is_named name)
            (update_first (is_named name) (λ p. (apply_status s p).0) printers)
          ≡ some after =
        find-update_named name name (λ p. (apply_status s p).0) printers keeps
        ∙ rw (eq_refl name, found) refl in
      (
        find-update_named name other (λ p. (apply_status s p).0) printers keeps,
        rw found' (reconcile_follows s after name a named),
        elim (Bool-cases (name =ˢ other)) [
          | inl same ↦
              rw (← (eq_iff name other).0 same, eq_refl name, found')
                (reconcile_follows s after name a named)
          | inr apart ↦
              rw (found', apart) (reconcile_other (reachable s) after name other a named apart)
        ],
        rw (found, poll_one),
      )

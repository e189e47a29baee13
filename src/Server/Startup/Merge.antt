-- ===== src/Server/Startup/Merge.antt =====
-- src/server.rs, `bootstrap_printers`: what the loop over the devices does to the configurations.
use ipp_printer_app.Base.{
  Bool, Bool-cases, List, Option, String, [], any, ap, arith, eq_iff, false, if◌then◌else◌, inl,
  inr, map, none, not, refl, some, suc, sym, true, ℕ, ◌&&◌, ◌++◌, ◌=ˢ◌, ◌||◌, ◌∙◌, ◌∷◌, ◌≡◌,
}
use mathlib.Core.List.{append-nil, append_assoc}
use ipp_printer_app.Device.{DiscoveredDevice}
use ipp_printer_app.Printer.{PrinterConfig, PrinterRegistry, new_record}
use ipp_printer_app.State.{Disk, Write, load}
use ipp_printer_app.Server.Startup.{
  Discovery, Uuids, add_device, add_devices, bootstrap_printers, has_uri, printer_name_from_uri,
  push_config, stored_from,
}

abbrev pub configs : PrinterRegistry → List PrinterConfig
configs ps = map (λ p. p.config) ps

-- Whether some configuration is for the device.
abbrev pub covers : String → List PrinterConfig → Bool
covers uri cfgs = any (λ cfg. cfg.device_uri =ˢ uri) cfgs

covers-configs :
    (uri : String) (ps : PrinterRegistry) → any (has_uri uri) ps ≡ covers uri (configs ps)
covers-configs uri [] = refl
covers-configs uri (p ∷ ps) = ap (λ b. p.config.device_uri =ˢ uri || b) (covers-configs uri ps)

pub covers-append :
    (uri : String) (xs ys : List PrinterConfig)
    → covers uri (xs ++ ys) ≡ (covers uri xs || covers uri ys)
covers-append uri [] ys = refl
covers-append uri (x ∷ xs) ys = ground (arith, covers-append uri xs ys)

-- The configurations have different devices.
abbrev pub apart : List PrinterConfig → Bool
apart [] = true
apart (cfg ∷ cfgs) = not (covers cfg.device_uri cfgs) && apart cfgs

pub apart-snoc :
    (cfgs : List PrinterConfig) (cfg : PrinterConfig)
    → apart cfgs ≡ true
    → covers cfg.device_uri cfgs ≡ false
    → apart (cfgs ++ cfg ∷ []) ≡ true
apart-snoc [] cfg h k = refl
apart-snoc (x ∷ cfgs) cfg h k = ground (
  arith,
  covers-append x.device_uri cfgs (cfg ∷ []),
  apart-snoc cfgs cfg,
  eq_iff x.device_uri cfg.device_uri,
  eq_iff cfg.device_uri x.device_uri,
)

configs-append : (ps qs : PrinterRegistry) → configs (ps ++ qs) ≡ configs ps ++ configs qs
configs-append [] qs = refl
configs-append (p ∷ ps) qs = ap (λ t. p.config ∷ t) (configs-append ps qs)

configs-stored_from :
    (fresh : Uuids) (i : ℕ) (cfgs : List PrinterConfig) → configs (stored_from fresh i cfgs) ≡ cfgs
unfolding stored_from new_record
configs-stored_from fresh i [] = refl
configs-stored_from fresh i (cfg ∷ cfgs) =
    ap (λ t. cfg ∷ t) (configs-stored_from fresh (suc i) cfgs)

module _ (found : Discovery) where
  -- What the configuration of the device is to be, if the backend knows the device and the callback takes it.
  abbrev pub config_from : DiscoveredDevice → Option String → Option PrinterConfig
  config_from d none = none
  config_from d (some driver) =
      found.make_config (printer_name_from_uri d.uri d.info) d.info driver d.uri d.device_id

  abbrev pub config_for : DiscoveredDevice → Option PrinterConfig
  config_for d = config_from d (found.driver_for_device d.device_id d.uri)

  -- A turn of the loop, on the configurations.
  abbrev pub add_config :
      DiscoveredDevice → Option PrinterConfig → List PrinterConfig → List PrinterConfig
  add_config d none cfgs = cfgs
  add_config d (some cfg) cfgs = if covers d.uri cfgs then cfgs else cfgs ++ cfg ∷ []

  abbrev pub add_all : List DiscoveredDevice → List PrinterConfig → List PrinterConfig
  add_all [] cfgs = cfgs
  add_all (d ∷ ds) cfgs = add_all ds (add_config d (config_for d) cfgs)

  configs-push_config :
      (fresh : Uuids) (d : DiscoveredDevice) (cfg : Option PrinterConfig) (ps : PrinterRegistry)
      → any (has_uri d.uri) ps ≡ false
      → configs (push_config fresh cfg ps) ≡ add_config d cfg (configs ps)
  unfolding push_config new_record
  configs-push_config fresh d none ps new = refl
  configs-push_config fresh d (some cfg) ps new =
      rw (sym (covers-configs d.uri ps) ∙ new) (configs-append ps _)

  add_config-known :
      (d : DiscoveredDevice) (cfg : Option PrinterConfig) (cfgs : List PrinterConfig)
      → covers d.uri cfgs ≡ true
      → add_config d cfg cfgs ≡ cfgs
  add_config-known d none cfgs h = refl
  add_config-known d (some cfg) cfgs h = rw h

  configs-add_device :
      (fresh : Uuids) (d : DiscoveredDevice) (driver : Option String) (ps : PrinterRegistry)
      → configs (add_device found fresh d driver ps)
        ≡ add_config d (config_from d driver) (configs ps)
  unfolding add_device
  configs-add_device fresh d none ps = refl
  configs-add_device fresh d (some driver) ps = elim (Bool-cases (any (has_uri d.uri) ps)) [
    | inl known ↦ rw known (
        sym (
          add_config-known d (config_from d (some driver)) (configs ps)
            (sym (covers-configs d.uri ps) ∙ known)))
    | inr new ↦ rw new (configs-push_config fresh d (config_from d (some driver)) ps new)
  ]

  configs-add_devices :
      (fresh : Uuids) (ds : List DiscoveredDevice) (ps : PrinterRegistry)
      → configs (add_devices found fresh ds ps) ≡ add_all ds (configs ps)
  unfolding add_devices
  configs-add_devices fresh [] ps = refl
  configs-add_devices fresh (d ∷ ds) ps =
      configs-add_devices fresh ds _
      ∙ ap (add_all ds) (configs-add_device fresh d (found.driver_for_device d.device_id d.uri) ps)

  -- What the loop makes of the stored configurations.
  pub configs-bootstrap_printers :
      (write : Write) (fresh : Uuids) (disk : Disk)
      → configs (bootstrap_printers write found fresh disk).0
        ≡ add_all found.devices (load disk).printers
  unfolding bootstrap_printers
  configs-bootstrap_printers write fresh disk =
      configs-add_devices fresh found.devices _
      ∙ ap (add_all found.devices) (configs-stored_from fresh 0 (load disk).printers)

  add_config-extends :
      (d : DiscoveredDevice) (cfg : Option PrinterConfig) (cfgs : List PrinterConfig)
      → (extra : List PrinterConfig) × (add_config d cfg cfgs ≡ cfgs ++ extra)
  add_config-extends d none cfgs = ([], sym (append-nil cfgs))
  add_config-extends d (some cfg) cfgs = elim (Bool-cases (covers d.uri cfgs)) [
    | inl known ↦ ([], rw known (sym (append-nil cfgs)))
    | inr new ↦ (cfg ∷ [], rw new)
  ]

  pub add_all-extends :
      (ds : List DiscoveredDevice) (cfgs : List PrinterConfig)
      → (extra : List PrinterConfig) × (add_all ds cfgs ≡ cfgs ++ extra)
  add_all-extends [] cfgs = ([], sym (append-nil cfgs))
  add_all-extends (d ∷ ds) cfgs =
      let (one, first) = add_config-extends d (config_for d) cfgs in
      let (more, rest) = add_all-extends ds (add_config d (config_for d) cfgs) in
      (one ++ more, rest ∙ ap (λ t. t ++ more) first ∙ append_assoc cfgs one more)

  pub covers-add_all :
      (uri : String) (ds : List DiscoveredDevice) (cfgs : List PrinterConfig)
      → covers uri cfgs ≡ true
      → covers uri (add_all ds cfgs) ≡ true
  covers-add_all uri ds cfgs h =
      let (extra, same) = add_all-extends ds cfgs in
      ap (covers uri) same ∙ covers-append uri cfgs extra ∙ ap (λ b. b || covers uri extra) h

  -- The device is skipped, or some configuration is for it.
  abbrev pub is_known : DiscoveredDevice → Option PrinterConfig → List PrinterConfig → Bool
  is_known d none cfgs = true
  is_known d (some cfg) cfgs = covers d.uri cfgs

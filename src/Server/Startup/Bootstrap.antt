-- ===== src/Server/Startup/Bootstrap.antt =====
-- src/server.rs, `bootstrap_printers`: the stored printers and the devices that are discovered.
use ipp_printer_app.Base.{
  All, Bool-cases, List, Option, String, [], ap, arith, eq_iff, inl, inr, none, refl, some, true,
  ◌++◌, ◌∙◌, ◌∷◌, ◌≡◌,
}
use ipp_printer_app.Device.{DiscoveredDevice}
use ipp_printer_app.Printer.{PrinterConfig}
use ipp_printer_app.State.{Disk, load, persist, write_ok}
use ipp_printer_app.Server.Startup.{Discovery, Uuids, bootstrap_printers}
use ipp_printer_app.Server.Startup.Merge.{
  configs, covers, covers-append, apart, apart-snoc, config_from, config_for, add_config, add_all,
  configs-bootstrap_printers, add_all-extends, covers-add_all, is_known,
}

module _ (found : Discovery) where
  -- The callback gives the configuration the URI that it is asked for.
  module _
      (keeps : (name info driver uri device_id : String) (cfg : PrinterConfig)
        → found.make_config name info driver uri device_id ≡ some cfg
        → cfg.device_uri ≡ uri) where
    uri-config_from :
        (d : DiscoveredDevice) (driver : Option String) (cfg : PrinterConfig)
        → config_from found d driver ≡ some cfg
        → cfg.device_uri ≡ d.uri
    uri-config_from d none cfg e = cc e
    uri-config_from d (some driver) cfg e = keeps _ _ _ _ _ cfg e

    apart-add_config :
        (d : DiscoveredDevice) (o : Option PrinterConfig) (cfgs : List PrinterConfig)
        → config_for found d ≡ o
        → apart cfgs ≡ true
        → apart (add_config found d o cfgs) ≡ true
    apart-add_config d none cfgs e h = h
    apart-add_config d (some cfg) cfgs e h = elim (Bool-cases (covers d.uri cfgs)) [
      | inl known ↦ rw known h
      | inr new ↦
          rw new (apart-snoc cfgs cfg h (ap (λ u. covers u cfgs) (uri-config_from d _ cfg e) ∙ new))
    ]

    apart-add_all :
        (ds : List DiscoveredDevice) (cfgs : List PrinterConfig)
        → apart cfgs ≡ true
        → apart (add_all found ds cfgs) ≡ true
    apart-add_all [] cfgs h = h
    apart-add_all (d ∷ ds) cfgs h =
        apart-add_all ds _ (apart-add_config d (config_for found d) cfgs refl h)

    is_known-add_config :
        (d : DiscoveredDevice) (o : Option PrinterConfig) (ds : List DiscoveredDevice)
        (cfgs : List PrinterConfig)
        → config_for found d ≡ o
        → is_known found d o (add_all found ds (add_config found d o cfgs)) ≡ true
    is_known-add_config d none ds cfgs e = refl
    is_known-add_config d (some cfg) ds cfgs e =
        covers-add_all found d.uri ds (add_config found d (some cfg) cfgs)
          (elim (Bool-cases (covers d.uri cfgs)) [
            | inl known ↦ rw known known
            | inr new ↦ rw new (
                covers-append d.uri cfgs (cfg ∷ [])
                ∙ ground (
                  arith,
                  uri-config_from d (found.driver_for_device d.device_id d.uri) cfg e,
                  eq_iff cfg.device_uri d.uri,
                ))
          ])

    pub known-add_all :
        (ds : List DiscoveredDevice) (cfgs : List PrinterConfig)
        → All (λ d. is_known found d (config_for found d) (add_all found ds cfgs) ≡ true) ds
    known-add_all [] cfgs = tt
    known-add_all (d ∷ ds) cfgs =
        (is_known-add_config d (config_for found d) ds cfgs refl, known-add_all ds _)

    -- If the callback that makes a configuration gives it the device URI that it is asked for, and the write succeeds:
    -- started from stored printers of different devices, the registry has the stored ones first and in their order, no
    -- two for one device, and one for every device that the backend knows and the callback takes; and the file holds
    -- the same configurations.
    pub bootstrap_printers_lem :
        (fresh : Uuids) (disk : Disk)
        → apart (load disk).printers ≡ true
        → let (printers, disk') = bootstrap_printers write_ok found fresh disk in
          ((extra : List PrinterConfig) × (configs printers ≡ (load disk).printers ++ extra))
          × (apart (configs printers) ≡ true)
          × All (λ d. is_known found d (config_for found d) (configs printers) ≡ true) found.devices
          × (disk' ≡ some (record { printers = configs printers }))
    unfolding bootstrap_printers persist
    bootstrap_printers_lem fresh disk h =
        let stored : List PrinterConfig = (load disk).printers in
        let made = configs-bootstrap_printers found write_ok fresh disk in
        let (extra, same) = add_all-extends found found.devices stored in
        (
          (extra, made ∙ same),
          ap apart made ∙ apart-add_all found.devices stored h,
          rw made (known-add_all found.devices stored),
          refl,
        )

    pub add_all-known :
        (ds : List DiscoveredDevice) (cfgs : List PrinterConfig)
        → All (λ d. is_known found d (config_for found d) cfgs ≡ true) ds
        → add_all found ds cfgs ≡ cfgs
    add_all-known [] cfgs h = refl
    add_all-known (d ∷ ds) cfgs h =
        ap (add_all found ds) (settled (config_for found d) h.0) ∙ add_all-known ds cfgs h.1
      where
        settled :
            (o : Option PrinterConfig)
            → is_known found d o cfgs ≡ true
            → add_config found d o cfgs ≡ cfgs
        settled none k = refl
        settled (some cfg) k = rw k

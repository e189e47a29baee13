-- ===== src/Tests/Startup.antt =====
-- Checks of the start-up, with the device of the example server.
use ipp_printer_app.Base.{
  All, List, Option, String, [], ap, map, none, refl, some, sym, true, ◌++◌, ◌∷◌, ◌≡◌,
}
use ipp_printer_app.Printer.{PrinterConfig, PrinterRecord}
use ipp_printer_app.State.{Disk, load, write_ok}
use ipp_printer_app.Server.Startup.{Discovery, Uuids, bootstrap_printers, printer_name_from_uri}
use ipp_printer_app.Server.Startup.Slug.{IsSlug}
use ipp_printer_app.Server.Startup.QueueName.{printer_name_from_uri_lem}
use ipp_printer_app.Server.Startup.Merge.{apart, config_for, configs, is_known}
use ipp_printer_app.Server.Startup.Bootstrap.{bootstrap_printers_lem}
use ipp_printer_app.Example.{demo, make_config}
use ipp_printer_app.Tests.{labels}

abbrev pub uuids : Uuids
uuids i = "0000"

demo_name : printer_name_from_uri "demo://printer-1" "Demo Printer" ≡ "demo_printer"
unfolding printer_name_from_uri
demo_name = refl

spaced_name : printer_name_from_uri "usb://x" " __Acme (TM)  L-50! " ≡ "acme_tm_l_50"
unfolding printer_name_from_uri
spaced_name = refl

no_name : printer_name_from_uri "://" "" ≡ "printer"
unfolding printer_name_from_uri
no_name = refl

demo_names :
    map (λ (p : PrinterRecord). p.config.name) (bootstrap_printers write_ok demo uuids none).0
    ≡ "demo_printer" ∷ []
unfolding bootstrap_printers demo
demo_names = refl

-- Two devices that describe themselves alike get printers of one name.
abbrev twins : Discovery
unfolding demo
twins = record demo {
  devices =
      record { info = "Demo Printer"; uri = "demo://1"; device_id = "" }
      ∷ record { info = "Demo Printer"; uri = "demo://2"; device_id = "" }
      ∷ [];
}

twin_names :
    map (λ (p : PrinterRecord). p.config.name) (bootstrap_printers write_ok twins uuids none).0
    ≡ "demo_printer" ∷ "demo_printer" ∷ []
unfolding bootstrap_printers demo twins
twin_names = refl

pub demo-keeps :
    (name info driver uri device_id : String) (cfg : PrinterConfig)
    → make_config name info driver uri device_id ≡ some cfg
    → cfg.device_uri ≡ uri
unfolding make_config
demo-keeps name info driver uri device_id cfg e =
    ap (λ (o : Option PrinterConfig). elim o [ none ↦ uri | some c ↦ c.device_uri ]) (sym e)

abbrev saved : Disk
saved = some (record { printers = labels ∷ [] })

printer_name_from_uri_lem_example :
    let name = printer_name_from_uri "usb://x" "Acme (TM) L-50" in
    IsSlug name × (printer_name_from_uri "demo://printer-1" name ≡ name)
printer_name_from_uri_lem_example =
    printer_name_from_uri_lem "usb://x" "Acme (TM) L-50" "demo://printer-1"

saved-apart : apart (load saved).printers ≡ true
unfolding load
saved-apart = refl

bootstrap_printers_lem_example :
    let (printers, disk') = bootstrap_printers write_ok demo uuids saved in
    ((extra : List PrinterConfig) × (configs printers ≡ (load saved).printers ++ extra))
    × (apart (configs printers) ≡ true)
    × All (λ d. is_known demo d (config_for demo d) (configs printers) ≡ true) demo.devices
    × (disk' ≡ some (record { printers = configs printers }))
unfolding demo
bootstrap_printers_lem_example = bootstrap_printers_lem demo demo-keeps uuids saved saved-apart

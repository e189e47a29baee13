-- ===== src/Example.antt =====
-- examples/minimal_server.rs: the smallest application of the library, with one made-up device.
use ipp_printer_app.Base.{Bool, List, Option, String, [], if◌then◌else◌, none, some, true, ℕ, ◌∷◌}
use ipp_printer_app.Base.Int.{pos}
use ipp_printer_app.Device.{DiscoveredDevice}
use ipp_printer_app.Printer.{PrinterConfig, PrinterRegistry}
use ipp_printer_app.Raster.{JobOutcome, completed}
use ipp_printer_app.State.{Disk, Write}
use ipp_printer_app.Texts.{chars, starts_with}
use ipp_printer_app.Server.{AppState}
use ipp_printer_app.Server.MediaForm.{MediaChange}
use ipp_printer_app.Server.Startup.{Discovery, ServerOptions, Uuids, bootstrap_printers, run}

abbrev pub demo_devices : List DiscoveredDevice
demo_devices =
    record { info = "Demo Printer"; uri = "demo://printer-1"; device_id = "MFG:Demo;MDL:Test;" }
    ∷ []

unfoldable pub driver_for_device : String → String → Option String
unfolding starts_with
driver_for_device device_id device_uri =
    if starts_with (chars "demo://") (chars device_uri) then some "demo" else none

unfoldable pub make_config : String → String → String → String → String → Option PrinterConfig
make_config name info driver uri device_id = some (record {
  name = name;
  display_name = info;
  driver_name = driver;
  make_and_model = "Demo Printer";
  device_id = device_id;
  device_uri = uri;
  dpi = pos 203;
  printhead_width_dots = 384;
  media_names = "om_30x20mm_30x20mm" ∷ [];
  media_sizes = (pos 3000, pos 2000) ∷ [];
  media_size_min = (pos 1000, pos 1000);
  media_size_max = (pos 5000, pos 12000);
  darkness = pos 50;
  document_formats = [];
})

unfoldable pub demo : Discovery
unfolding driver_for_device make_config
demo = record {
  devices = demo_devices;
  driver_for_device = driver_for_device;
  make_config = make_config;
}

-- The callback, which succeeds whatever it is given.
abbrev pub print_job : {C : Type 0} → C → List ℕ → ℕ → JobOutcome
print_job ctx raster copies = completed

abbrev pub demo_options : PrinterRegistry → ServerOptions
demo_options printers = record {
  host = "127.0.0.1";
  port = 8631;
  printers = printers;
  advertise_mdns = true;
}

abbrev pub media_change : Option MediaChange
media_change = none

-- `main`, up to the loop of the listener.
unfoldable pub main :
    {A : Type 0}
    → Write
    → Uuids
    → Bool
    → (PrinterRegistry → ℕ → Option A)
    → Disk
    → Option (AppState × Option A)
unfolding bootstrap_printers run demo
main write fresh bound register_all disk =
    let (printers, disk') = bootstrap_printers write demo fresh disk in
    run bound (demo_options printers) register_all disk'

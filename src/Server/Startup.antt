-- ===== src/Server/Startup.antt =====
-- src/server.rs: what happens before the first request. The backend, the callback that makes a configuration, and the
-- fresh UUIDs, one for each record that is made, are arguments.
pub mod Slug
pub mod QueueName
pub mod Merge
pub mod Bootstrap
use ipp_printer_app.Base.{
  Bool, Char, List, Option, String, [], any, code, if◌then◌else◌, is_nil, keep, leb, length, map,
  none, not, some, suc, ℕ, ◌&&◌, ◌++◌, ◌-◌, ◌=ˢ◌, ◌||◌, ◌∷◌,
}
use Prim.Native.String.{char_at}
use ipp_printer_app.Device.{DiscoveredDevice}
use ipp_printer_app.Job.{JobRegistry}
use ipp_printer_app.Job
use ipp_printer_app.Printer.{PrinterConfig, PrinterRecord, PrinterRegistry, new_record}
use ipp_printer_app.State.{Disk, Write, load, persist}
use ipp_printer_app.Texts.{chars, from_chars, is_char, is_digit, split_from, trim_matches}
use ipp_printer_app.Server.{AppState}

abbrev pub is_upper : Char → Bool
is_upper c = leb b'A' (code c) && leb (code c) b'Z'

abbrev pub is_lower : Char → Bool
is_lower c = leb b'a' (code c) && leb (code c) b'z'

abbrev pub is_ascii_alphanumeric : Char → Bool
is_ascii_alphanumeric c = is_digit c || (is_upper c || is_lower c)

abbrev pub to_ascii_lowercase : Char → Char
to_ascii_lowercase c =
    if is_upper c then char_at "abcdefghijklmnopqrstuvwxyz" (code c - b'A') else c

abbrev pub underscore : Char
underscore = char_at "_" 0

abbrev pub slug_char : Char → Char
slug_char c = if is_ascii_alphanumeric c then to_ascii_lowercase c else underscore

abbrev pub is_gap : Char → Bool
is_gap c = is_char b'_' c

-- `join("_")`.
unfoldable pub join : List (List Char) → List Char
join [] = []
join (piece ∷ []) = piece
join (piece ∷ next ∷ pieces) = piece ++ underscore ∷ join (next ∷ pieces)

abbrev pub is_piece : List Char → Bool
is_piece piece = not (is_nil piece)

-- The pieces of the name before they are joined.
unfoldable pub collapsed : List Char → List Char
unfolding split_from trim_matches join
collapsed source =
    join (keep is_piece (split_from b'_' [] (trim_matches is_gap (map slug_char source))))

abbrev pub or_printer : List Char → List Char
or_printer [] = chars "printer"
or_printer (c ∷ cs) = c ∷ cs

unfoldable pub printer_name_from_uri : String → String → String
unfolding collapsed
printer_name_from_uri uri info =
    from_chars (or_printer (collapsed (chars (if info =ˢ "" then uri else info))))

-- The arguments of `bootstrap_printers`, the discovery already done.
pub record Discovery : Type 0 where
  pub devices : List DiscoveredDevice
  pub driver_for_device : String → String → Option String
  pub make_config : String → String → String → String → String → Option PrinterConfig

abbrev pub has_uri : String → PrinterRecord → Bool
has_uri uri r = r.config.device_uri =ˢ uri

-- The records come out of `fresh`, the UUIDs of the records in the order in which they are made.
abbrev pub Uuids : Type 0
Uuids = ℕ → String

unfoldable pub stored_from : Uuids → ℕ → List PrinterConfig → PrinterRegistry
unfolding new_record
stored_from fresh i [] = []
stored_from fresh i (cfg ∷ cfgs) = new_record (fresh i) cfg ∷ stored_from fresh (suc i) cfgs

abbrev pub push_config : Uuids → Option PrinterConfig → PrinterRegistry → PrinterRegistry
unfolding new_record
push_config fresh none records = records
push_config fresh (some cfg) records = records ++ new_record (fresh (length records)) cfg ∷ []

-- One turn of the loop, from the answer about the driver on.
unfoldable pub add_device :
    Discovery → Uuids → DiscoveredDevice → Option String → PrinterRegistry → PrinterRegistry
unfolding printer_name_from_uri push_config
add_device found fresh d none records = records
add_device found fresh d (some driver) records =
    if any (has_uri d.uri) records
    then records
    else push_config fresh
        (found.make_config (printer_name_from_uri d.uri d.info) d.info driver d.uri d.device_id)
        records

unfoldable pub add_devices :
    Discovery → Uuids → List DiscoveredDevice → PrinterRegistry → PrinterRegistry
unfolding add_device
add_devices found fresh [] records = records
add_devices found fresh (d ∷ ds) records =
    add_devices found fresh ds
      (add_device found fresh d (found.driver_for_device d.device_id d.uri) records)

unfoldable pub bootstrap_printers : Write → Discovery → Uuids → Disk → PrinterRegistry × Disk
unfolding load stored_from add_devices persist
bootstrap_printers write found fresh disk =
    let records =
      add_devices found fresh found.devices (stored_from fresh 0 (load disk).printers) in
    (records, persist write records disk)

-- What `ServerOptions` carries besides the callbacks, the backend and the path of the file.
pub record ServerOptions : Type 0 where
  pub host : String
  pub port : ℕ
  pub printers : PrinterRegistry
  pub advertise_mdns : Bool

-- The state that `Server::router` builds: no job yet.
unfoldable pub router_state : ServerOptions → Disk → AppState
unfolding Job.new
router_state opts disk = record {
  host = opts.host;
  port = opts.port;
  printers = opts.printers;
  jobs = Job.new;
  disk = disk;
}

-- The advertiser that `Server::run` holds, with the default feature `mdns`, from what `register_all` gives; none after an error.
unfoldable pub chosen_advertiser :
    {A : Type 0} → ServerOptions → (PrinterRegistry → ℕ → Option A) → Option A
chosen_advertiser opts register_all =
    if opts.advertise_mdns then register_all opts.printers opts.port else none

-- `Server::run` up to the loop of the listener; nothing is started if the address cannot be bound.
unfoldable pub run :
    {A : Type 0}
    → Bool
    → ServerOptions
    → (PrinterRegistry → ℕ → Option A)
    → Disk
    → Option (AppState × Option A)
unfolding router_state chosen_advertiser
run bound opts register_all disk =
    if bound then some (router_state opts disk, chosen_advertiser opts register_all) else none

-- ===== src/Printer.antt =====
-- src/printer.rs: printer configuration and runtime state. A `PrinterRegistry` is the list under its lock;
-- a fresh UUID is an argument of `new_record`.
pub mod Positions
pub mod Media
pub mod Registry
use ipp_printer_app.Base.{
  Bool, List, Option, String, [], false, if◌then◌else◌, length, ltb, none, not, some, suc, zero, ℕ,
  ◌&&◌, ◌==◌, ◌=ˢ◌, ◌||◌, ◌∷◌,
}
use ipp_printer_app.Base.Int.{eq_ℤ, ℤ}
use ipp_printer_app.Flags.Reason
use ipp_printer_app.Flags.Reason.{PrinterReason}
use ipp_printer_app.Device.{ReadyMedia}
use ipp_printer_app.Texts.{concat, show}

pub record PrinterConfig : Type 0 where
  pub name : String
  pub display_name : String
  pub driver_name : String
  pub make_and_model : String
  pub device_id : String
  pub device_uri : String
  pub dpi : ℤ
  pub printhead_width_dots : ℕ
  pub media_names : List String
  pub media_sizes : List (ℤ × ℤ)
  pub media_size_min : ℤ × ℤ
  pub media_size_max : ℤ × ℤ
  pub darkness : ℤ
  pub document_formats : List String

-- An unspecified bind address is advertised as `localhost`.
unfoldable pub reachable_host : String → String
reachable_host host =
    if host =ˢ "0.0.0.0" || (host =ˢ "::" || host =ˢ "") then "localhost" else host

unfoldable pub printer_uri : PrinterConfig → String → ℕ → String
unfolding reachable_host show
printer_uri cfg host port =
    concat ("ipp://" ∷ reachable_host host ∷ ":" ∷ show port ∷ "/ipp/print/" ∷ cfg.name ∷ [])

unfoldable pub display_label : PrinterConfig → String
display_label cfg =
    if not (cfg.display_name =ˢ "")
    then cfg.display_name
    else if not (cfg.make_and_model =ˢ "")
    then cfg.make_and_model
    else cfg.name

pub data IppPrinterState : Type 0 where
  idle processing stopped : IppPrinterState

-- The discriminants of `#[repr(u32)]`.
abbrev pub printer_state_code : IppPrinterState → ℕ
printer_state_code idle = 3
printer_state_code processing = 4
printer_state_code stopped = 5

pub record PrinterRecord : Type 0 where
  pub config : PrinterConfig
  pub state : IppPrinterState
  pub reasons : PrinterReason
  pub uuid : String
  pub ready_media : Option ReadyMedia
  pub supply_percent : Option ℕ

unfoldable pub new_record : String → PrinterConfig → PrinterRecord
new_record uuid config = record {
  config = config;
  state = idle;
  reasons = Reason.empty;
  uuid = uuid;
  ready_media = none;
  supply_percent = none;
}

abbrev pub PrinterRegistry : Type 0
PrinterRegistry = List PrinterRecord

abbrev pub is_named : String → PrinterRecord → Bool
is_named name p = p.config.name =ˢ name

abbrev pub shift : Option ℕ → Option ℕ
shift none = none
shift (some i) = some (suc i)

-- `iter().position(|n| *n == name)`
abbrev pub position : String → List String → Option ℕ
position name [] = none
position name (n ∷ ns) = if n =ˢ name then some 0 else shift (position name ns)

module _ {ℓ} {A : Type ℓ} where
  -- `Vec::remove(i)`, called only within bounds.
  abbrev pub remove_at : ℕ → List A → List A
  remove_at i [] = []
  remove_at zero (x ∷ xs) = xs
  remove_at (suc i) (x ∷ xs) = x ∷ remove_at i xs

  -- A removal that is skipped out of bounds.
  abbrev pub cut_at : ℕ → List A → List A
  cut_at i xs = if ltb i (length xs) then remove_at i xs else xs

  abbrev pub first : List A → Option A
  first [] = none
  first (x ∷ xs) = some x

abbrev pub is_first : String → List String → Bool
is_first name [] = false
is_first name (n ∷ ns) = n =ˢ name

abbrev pub same_size : ℤ × ℤ → ℤ × ℤ → Bool
same_size a b = eq_ℤ a.0 b.0 && eq_ℤ a.1 b.1

abbrev pub ready_size_is : Option ReadyMedia → ℤ × ℤ → Bool
ready_size_is none size = false
ready_size_is (some m) size = same_size m.size_hmm size

-- The two media lists without the entry at index `i`; the list of sizes may be the shorter one.
unfoldable pub drop_media : Option ℕ → PrinterConfig → PrinterConfig
drop_media none cfg = cfg
drop_media (some i) cfg = record cfg {
  media_names = remove_at i cfg.media_names;
  media_sizes = cut_at i cfg.media_sizes;
}

unfoldable pub insert_media : ReadyMedia → PrinterConfig → PrinterConfig
insert_media media cfg = record cfg {
  media_names = media.name ∷ cfg.media_names;
  media_sizes = media.size_hmm ∷ cfg.media_sizes;
}

unfoldable pub learn_media : ReadyMedia → PrinterConfig → PrinterConfig
unfolding drop_media insert_media
learn_media media cfg =
    if is_first media.name cfg.media_names
    then cfg
    else insert_media media (drop_media (position media.name cfg.media_names) cfg)

-- The new record, and whether anything changed.
unfoldable pub set_ready_media : ReadyMedia → PrinterRecord → PrinterRecord × Bool
unfolding learn_media
set_ready_media media rec = (
  record rec { config = learn_media media rec.config; ready_media = some media },
  not (is_first media.name rec.config.media_names)
      || not (ready_size_is rec.ready_media media.size_hmm),
)

unfoldable pub set_printer_processing : PrinterRecord → PrinterRecord
set_printer_processing rec = record rec { state = processing }

unfoldable pub set_printer_idle : PrinterRecord → PrinterRecord
set_printer_idle rec = record rec { state = idle }

-- `PrinterHandle`, the view of a record that driver callbacks get.
pub record PrinterHandle : Type 0 where
  pub handle_record : PrinterRecord

abbrev pub handle_driver_name : PrinterHandle → String
handle_driver_name h = h.handle_record.config.driver_name

abbrev pub handle_darkness : PrinterHandle → ℤ
handle_darkness h = h.handle_record.config.darkness

abbrev pub handle_printhead_width_dots : PrinterHandle → ℕ
handle_printhead_width_dots h = h.handle_record.config.printhead_width_dots

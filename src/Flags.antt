-- ===== src/Flags.antt =====
-- src/flags.rs: the `printer-state-reasons` bit flags. A `PrinterReason` is its `u32`; `contains`,
-- `intersects`, `is_empty` and `|` are the bitwise tests that the `bitflags!` macro documents.
pub mod Reason
pub mod Bits
pub mod Keywords
use Prim.Native.Nat.{bit_and, bit_or}
use ipp_printer_app.Base.{ℕ, Bool, not, ◌==◌, if◌then◌else◌, List, [], ◌∷◌, map, keep, String}
use Reason
use Reason.{PrinterReason}

-- `self.contains(other)`: every bit of `other` is set.
unfoldable pub contains : PrinterReason → PrinterReason → Bool
contains r bits = bit_and r bits == bits

-- `self.intersects(other)`: some bit of `other` is set.
unfoldable pub intersects : PrinterReason → PrinterReason → Bool
intersects r bits = not (bit_and r bits == 0)

-- The table of `ipp_keywords`, in the order that CUPS expects.
abbrev pub keyword_table : List (PrinterReason × String)
keyword_table =
    (Reason.other, "other")
    ∷ (Reason.cover_open, "cover-open")
    ∷ (Reason.door_open, "door-open")
    ∷ (Reason.input_tray_missing, "input-tray-missing")
    ∷ (Reason.marker_supply_empty, "marker-supply-empty")
    ∷ (Reason.marker_supply_low, "marker-supply-low")
    ∷ (Reason.marker_waste_almost_full, "marker-waste-almost-full")
    ∷ (Reason.marker_waste_full, "marker-waste-full")
    ∷ (Reason.media_empty, "media-empty")
    ∷ (Reason.media_jam, "media-jam")
    ∷ (Reason.media_low, "media-low")
    ∷ (Reason.media_needed, "media-needed")
    ∷ (Reason.offline, "offline-report")
    ∷ (Reason.spool_area_full, "spool-area-full")
    ∷ (Reason.toner_empty, "toner-empty")
    ∷ (Reason.toner_low, "toner-low")
    ∷ (Reason.identify_printer_requested, "identify-printer-requested")
    ∷ []

unfoldable pub ipp_keywords : PrinterReason → List String
ipp_keywords r =
    if r == 0
    then "none" ∷ []
    else map (λ e. e.1) (keep (λ (e : PrinterReason × String). contains r e.0) keyword_table)

-- The reasons that `is_recoverable` joins by `|`.
abbrev pub recoverable_mask : PrinterReason
recoverable_mask = bit_or Reason.offline (
    bit_or Reason.media_jam (
      bit_or Reason.media_empty (
        bit_or Reason.media_needed (
          bit_or Reason.input_tray_missing (
            bit_or Reason.cover_open
              (bit_or Reason.door_open (bit_or Reason.marker_supply_empty Reason.toner_empty)))))))

unfoldable pub is_recoverable : PrinterReason → Bool
unfolding intersects
is_recoverable r = intersects r recoverable_mask

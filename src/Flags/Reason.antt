-- ===== src/Flags/Reason.antt =====
-- src/flags.rs: the constants of the `PrinterReason` flag set, each one bit of a `u32`.
use ipp_printer_app.Base.{ℕ}

abbrev pub PrinterReason : Type 0
PrinterReason = ℕ

-- `PrinterReason::empty()`.
abbrev pub empty : PrinterReason
empty = 0

abbrev pub other : PrinterReason
other = 0x0001

abbrev pub cover_open : PrinterReason
cover_open = 0x0002

abbrev pub input_tray_missing : PrinterReason
input_tray_missing = 0x0004

abbrev pub marker_supply_empty : PrinterReason
marker_supply_empty = 0x0008

abbrev pub marker_supply_low : PrinterReason
marker_supply_low = 0x0010

abbrev pub marker_waste_almost_full : PrinterReason
marker_waste_almost_full = 0x0020

abbrev pub marker_waste_full : PrinterReason
marker_waste_full = 0x0040

abbrev pub media_empty : PrinterReason
media_empty = 0x0080

abbrev pub media_jam : PrinterReason
media_jam = 0x0100

abbrev pub media_low : PrinterReason
media_low = 0x0200

abbrev pub media_needed : PrinterReason
media_needed = 0x0400

abbrev pub offline : PrinterReason
offline = 0x0800

abbrev pub spool_area_full : PrinterReason
spool_area_full = 0x1000

abbrev pub toner_empty : PrinterReason
toner_empty = 0x2000

abbrev pub toner_low : PrinterReason
toner_low = 0x4000

abbrev pub door_open : PrinterReason
door_open = 0x8000

abbrev pub identify_printer_requested : PrinterReason
identify_printer_requested = 0x10000

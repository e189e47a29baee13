-- ===== src/Device.antt =====
-- src/device.rs: what a device backend reports. `DeviceBackend` itself is implemented by the consumer
-- crate: its methods are arguments of the operations that call them.
use ipp_printer_app.Base.{List, Option, String, none, ℕ}
use ipp_printer_app.Base.Int.{ℤ}
use ipp_printer_app.Flags.Reason
use ipp_printer_app.Flags.Reason.{PrinterReason}

pub record ReadyMedia : Type 0 where
  pub name : String
  pub size_hmm : ℤ × ℤ
  pub media_type : String

pub record PollStatus : Type 0 where
  pub reasons : PrinterReason
  pub ready_media : Option ReadyMedia
  pub supply_percent : Option ℕ

-- `PollStatus::default()`.
abbrev pub default_status : PollStatus
default_status = record { reasons = Reason.empty; ready_media = none; supply_percent = none }

abbrev pub from_reasons : PrinterReason → PollStatus
from_reasons reasons = record default_status { reasons = reasons }

pub record DiscoveredDevice : Type 0 where
  pub info : String
  pub uri : String
  pub device_id : String

-- The defaults of `DeviceBackend`: no update, and no sign from the device. `C` stands for the configuration.
abbrev pub default_poll_status : {C : Type 0} → C → Option PollStatus
default_poll_status config = none

abbrev pub default_identify : {C S : Type 0} → C → List String → S → S
default_identify config actions s = s

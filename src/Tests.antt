-- ===== src/Tests.antt =====
-- Concrete data for the checks of the modules below: a printer, a registry with one job, a stand-in for the
-- `ipp` crate.
pub mod Jobs
pub mod Requests
pub mod Workers
pub mod Media
pub mod Polling
pub mod Adverts
pub mod Startup
pub mod Pages
pub mod System
pub mod Restarts
use ipp_printer_app.Base.{
  ◌==◌, false, if◌then◌else◌, List, Option, [], arith, drop, get_or, none, ok, refl, some, true, ℕ,
  ◌*◌, ◌++◌, ◌+◌, ◌∷◌, ◌≡◌,
}
use ipp_printer_app.Base.Int.{pos}
use ipp_printer_app.Flags.Reason
use ipp_printer_app.Device.{ReadyMedia, PollStatus}
use ipp_printer_app.Job.{JobRecord, JobRegistry, pending, new, create, get}
use ipp_printer_app.Job.Invariant.{IsValid, new-IsValid, create-IsValid}
use ipp_printer_app.Printer.{PrinterConfig, PrinterRecord, idle}
use ipp_printer_app.Ipp
use ipp_printer_app.Ipp.{
  IppCrate, IsFaithful, Request, Response, Attr, attr, Group, operation_attributes, Operation,
  IppValue, Values, array,
}
use ipp_printer_app.Server.{AppState}
use ipp_printer_app.Server.Handler.{Env}

abbrev pub labels : PrinterConfig
labels = record {
  name = "labels";
  display_name = "";
  driver_name = "label";
  make_and_model = "Label 203";
  device_id = "";
  device_uri = "usb://label";
  dpi = pos 203;
  printhead_width_dots = 384;
  media_names = "om_small_40x30mm" ∷ "om_wide_60x40mm" ∷ [];
  media_sizes = (pos 4000, pos 3000) ∷ (pos 6000, pos 4000) ∷ [];
  media_size_min = (pos 1000, pos 1000);
  media_size_max = (pos 6000, pos 20000);
  darkness = pos 8;
  document_formats = [];
}

abbrev pub printer : PrinterRecord
printer = record {
  config = labels;
  state = idle;
  reasons = Reason.empty;
  uuid = "0000";
  ready_media = none;
  supply_percent = none;
}

abbrev pub job : JobRecord
job = record {
  id = 1;
  printer_name = "labels";
  owner = "ann";
  state = pending;
  reasons = Reason.empty;
  message = "";
  created_at = pos 1000000000;
  completed_at = none;
  cancel_flag = 0;
}

-- What the first `create` makes.
abbrev pub one_job : JobRegistry
one_job = record { next_id = 2; jobs = job ∷ []; flags = false ∷ [] }

pub one_job-IsValid : IsValid one_job
unfolding new create
one_job-IsValid = create-IsValid new "labels" "ann" (pos 1000000000) new-IsValid (omega arith)

pub get-one_job : get one_job 1 ≡ some job
unfolding get
get-one_job = refl

abbrev pub server : AppState
server = record {
  host = "0.0.0.0";
  port = 8631;
  printers = printer ∷ [];
  jobs = one_job;
  disk = none;
}

abbrev byte : List ℕ → ℕ → ℕ
byte bytes i = get_or bytes i 0

-- The attributes of every request of the stand-in.
abbrev pub attributes : List Attr
attributes =
    attr "printer-uri" (Ipp.uri "ipp://localhost:8631/ipp/print/labels")
    ∷ attr "requesting-user-name" (Ipp.name_without_language "ann")
    ∷ attr "job-id" (Ipp.integer (pos 1))
    ∷ attr "last-document" (Ipp.boolean true)
    ∷ []

-- Reads the header; what follows it is the payload.
abbrev pub request : ℕ → List ℕ → Request
request op payload = record {
  version = 0x200;
  op_code = op;
  request_id = 7;
  groups = record { tag = operation_attributes; attributes = attributes } ∷ [];
  payload = ok payload;
}

abbrev operation : ℕ → Option Operation
operation n =
    if n == 2
    then some Ipp.print_job
    else if n == 4
    then some Ipp.validate_job
    else if n == 5
    then some Ipp.create_job
    else if n == 6
    then some Ipp.send_document
    else if n == 8
    then some Ipp.cancel_job
    else if n == 9
    then some Ipp.get_job_attributes
    else if n == 10
    then some Ipp.get_jobs
    else if n == 11
    then some Ipp.get_printer_attributes
    else none

abbrev to_list : Values → List IppValue
to_list Ipp.nil = []
to_list (Ipp.cons v vs) = v ∷ to_list vs

abbrev elements : IppValue → List IppValue
elements (array vs) = to_list vs
elements v = v ∷ []

abbrev pub crate : IppCrate
crate = record {
  parse = λ bytes. ok (request (byte bytes 2 * 256 + byte bytes 3) (drop 8 bytes));
  new_response = λ version status request_id.
      ok (record { version = version; status = status; request_id = request_id; groups = [] });
  add = λ tag a groups. groups ++ record { tag = tag; attributes = a ∷ [] } ∷ [];
  from_u16 = operation;
  debug_operation = λ op. "Other";
  to_bytes = λ r. [];
  name_fits = λ s. true;
  elements = elements;
}

pub crate-IsFaithful : IsFaithful crate
crate-IsFaithful = record {
  fresh = λ version request_id. [];
  makes = λ version status request_id. refl;
}

abbrev pub env : Env
env = record { crate = crate; now = pos 2000000000; up = 5 }

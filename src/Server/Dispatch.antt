-- ===== src/Server/Dispatch.antt =====
-- src/server.rs, `handle_ipp`: the checks that every request passes, in their order, and the dispatch.
pub mod Frame
pub mod Requests
pub mod Advertised
use ipp_printer_app.Base.{
  Result, Bool, List, Option, String, [], code, err, find, if◌then◌else◌, none, not, ok, some, ℕ,
  ◌&&◌, ◌/◌, ◌==◌, ◌||◌, ◌∷◌,
}
use ipp_printer_app.Job.{
  JobId, JobRecord, JobRegistry, JobState, SystemTime, create, get, jobs_for_printer, canceled,
}
use ipp_printer_app.Job
use ipp_printer_app.Printer.{PrinterConfig, PrinterRecord, is_named, printer_uri}
use ipp_printer_app.Texts.{concat, show}
use ipp_printer_app.Ipp.{
  Operation, print_job, validate_job, create_job, send_document, cancel_job, get_job_attributes,
  get_jobs, get_printer_attributes, Request, Response, IppCrate, IppStatus, successful_ok,
  client_error_bad_request, client_error_not_found, client_error_not_possible,
  server_error_version_not_supported,
}
use ipp_printer_app.Attributes.Jobs.{
  print_job_accepted, build_job_attrs_response, build_get_jobs_response,
}
use ipp_printer_app.Attributes.Printer as Description
use ipp_printer_app.Server.{AppState}
use ipp_printer_app.Server.Wire.{operation_attributes_well_ordered}
use ipp_printer_app.Server.Request.{
  has_operation_attr, extract_job_id, extract_copies, extract_print_quality,
  extract_document_format, extract_requested_attributes, extract_identify_actions, effective_filter,
  requesting_user, my_jobs_flag,
}
use ipp_printer_app.Server.Handler.{
  Failure, or_internal, reply, refuse, plain, status_if_job, and_get, close_job, cancel_all,
  cancel_my_jobs, identify_printer, PrintTask, HttpStatus, Reply, Env, bad_request, not_found,
  internal_server_error,
}
use ipp_printer_app.Server.Operations.{
  print_task, create_and_accept, spawn_if_ok, handle_print_job, handle_create_job, with_job,
  attach_document, handle_send_document, listed_jobs, handle_get_jobs, handle_get_job_attributes,
  cancel_status, handle_cancel_job,
}

-- The `match op`.
unfoldable pub handle_operation :
    Env → AppState → String → PrinterRecord → Request → Operation → Reply
unfolding handle_print_job handle_create_job handle_send_document handle_get_jobs
    handle_get_job_attributes handle_cancel_job Description.get_printer_attributes
    Description.validate_job extract_requested_attributes
handle_operation env st name rec req get_printer_attributes = reply st (
    Description.get_printer_attributes env.crate env.up env.now req.version req.request_id rec
      st.host st.port (extract_requested_attributes env.crate req))
handle_operation env st name rec req validate_job = reply st (
    Description.validate_job env.crate env.up env.now req.version req.request_id rec st.host
      st.port)
handle_operation env st name rec req print_job = handle_print_job env st name rec req
handle_operation env st name rec req create_job = handle_create_job env st name rec req
handle_operation env st name rec req send_document = handle_send_document env st name rec req
handle_operation env st name rec req get_jobs = handle_get_jobs env st name rec req
handle_operation env st name rec req get_job_attributes = handle_get_job_attributes env st rec req
handle_operation env st name rec req cancel_job = handle_cancel_job env st req
handle_operation env st name rec req op =
    refuse st bad_request
      (concat ("unsupported IPP operation: " ∷ env.crate.debug_operation op ∷ []))

unfoldable pub from_code :
    Env → AppState → String → PrinterRecord → Request → Option Operation → Reply
unfolding handle_operation
from_code env st name rec req none = refuse st bad_request "unknown IPP operation"
from_code env st name rec req (some op) = handle_operation env st name rec req op

-- The dispatch on the raw operation code.
unfoldable pub handle_code : Env → AppState → String → PrinterRecord → Request → Reply
unfolding close_job cancel_my_jobs identify_printer from_code
handle_code env st name rec req =
    if req.op_code == 0x3b
    then close_job env st req
    else if req.op_code == 0x39
    then cancel_my_jobs env st name req
    else if req.op_code == 0x3c
    then identify_printer env st rec req
    else from_code env st name rec req (env.crate.from_u16 req.op_code)

-- The version's major number is neither 1 nor 2.
abbrev pub is_foreign : ℕ → Bool
is_foreign version = not (version / 256 == 1) && not (version / 256 == 2)

unfoldable pub route : Env → AppState → String → Request → Option PrinterRecord → Reply
unfolding handle_code
route env st name req none = refuse st not_found (concat ("printer not found: " ∷ name ∷ []))
route env st name req (some rec) = handle_code env st name rec req

-- The request as it was parsed; `body` is read again for the order of the first attributes.
unfoldable pub handle_request : Env → AppState → String → List ℕ → Request → Reply
unfolding operation_attributes_well_ordered has_operation_attr route
handle_request env st name body req =
    if is_foreign req.version
    then plain env st 0x101 server_error_version_not_supported req.request_id
    else if not (operation_attributes_well_ordered body)
    then plain env st req.version client_error_bad_request req.request_id
    else if req.request_id == 0
    then plain env st req.version client_error_bad_request req.request_id
    else if not (has_operation_attr req "printer-uri") && not (has_operation_attr req "job-uri")
    then plain env st req.version client_error_bad_request req.request_id
    else route env st name req (find (is_named name) st.printers)

unfoldable pub handle_parsed : Env → AppState → String → List ℕ → Result String Request → Reply
unfolding handle_request
handle_parsed env st name body (err e) =
    refuse st bad_request (concat ("IPP parse error: " ∷ e ∷ []))
handle_parsed env st name body (ok req) = handle_request env st name body req

unfoldable pub handle_ipp : Env → AppState → String → List ℕ → Reply
unfolding handle_parsed
handle_ipp env st name body = handle_parsed env st name body (env.crate.parse body)

abbrev pub http_code : HttpStatus → ℕ
http_code bad_request = 400
http_code not_found = 404
http_code internal_server_error = 500

-- The status, the content type and the body of an HTTP answer.
pub data HttpBody : Type 0 where
  ipp_bytes : List ℕ → HttpBody
  plain_text : String → HttpBody

abbrev pub HttpAnswer : Type 0
HttpAnswer = ℕ × String × HttpBody

abbrev pub http_answer : IppCrate → Result Failure Response → HttpAnswer
http_answer crate (ok resp) = (200, "application/ipp", ipp_bytes (crate.to_bytes resp))
http_answer crate (err (status, msg)) =
    (http_code status, "text/plain; charset=utf-8", plain_text msg)

unfoldable pub ipp_handler : Env → AppState → String → List ℕ → AppState × HttpAnswer
unfolding handle_ipp
ipp_handler env st name body =
    let r = handle_ipp env st name body in (r.state, http_answer env.crate r.answer)

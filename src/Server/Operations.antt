-- ===== src/Server/Operations.antt =====
-- src/server.rs, `handle_ipp`: the operations that the `ipp` crate knows by name, one function per branch of the
-- `match`.
pub mod Printing
pub mod Canceling
pub mod Listing
use ipp_printer_app.Base.{
  Result, List, Option, String, [], err, if◌then◌else◌, is_nil, keep, none, not, ok, some, ℕ, ◌=ˢ◌,
  ◌∷◌,
}
use ipp_printer_app.Job.{
  JobId, JobRecord, JobRegistry, JobState, SystemTime, create, get, jobs_for_printer, canceled,
}
use ipp_printer_app.Job
use ipp_printer_app.Printer.{PrinterConfig, PrinterRecord, is_named, printer_uri}
use ipp_printer_app.Texts.{concat, show}
use ipp_printer_app.Ipp.{
  Operation, print_job, validate_job, create_job, send_document, cancel_job, get_job_attributes,
  get_jobs, get_printer_attributes, Request, Response, IppCrate, IppStatus, successful_ok,
  client_error_bad_request, client_error_not_found, client_error_not_possible,
  server_error_version_not_supported,
}
use ipp_printer_app.Attributes.Jobs.{
  print_job_accepted, build_job_attrs_response, build_get_jobs_response,
}
use ipp_printer_app.Attributes.Printer as Description
use ipp_printer_app.Server.{AppState}
use ipp_printer_app.Server.Wire.{operation_attributes_well_ordered}
use ipp_printer_app.Server.Request.{
  has_operation_attr, extract_job_id, extract_copies, extract_print_quality,
  extract_document_format, extract_requested_attributes, extract_identify_actions, effective_filter,
  requesting_user, my_jobs_flag,
}
use ipp_printer_app.Server.Handler.{
  Failure, or_internal, reply, refuse, plain, status_if_job, and_get, close_job, cancel_all,
  cancel_my_jobs, identify_printer, PrintTask, HttpStatus, Reply, Env, bad_request, not_found,
  internal_server_error,
}

unfoldable pub print_task : String → JobRecord → List ℕ → Request → PrintTask
unfolding extract_copies extract_print_quality extract_document_format
print_task name job payload req = record {
  printer_name = name;
  job = job;
  payload = payload;
  copies = extract_copies req;
  document_format = extract_document_format req;
  print_quality = extract_print_quality req;
}

-- `create` and `print_job_accepted`, which Print-Job and Create-Job share.
unfoldable pub create_and_accept :
    Env → AppState → String → PrinterRecord → Request → Reply × JobRecord
unfolding create requesting_user printer_uri print_job_accepted
create_and_accept env st name rec req =
    let created = create st.jobs name (requesting_user req) env.now in
    (
      reply (record st { jobs = created.0 })
          (print_job_accepted env.crate req.version req.request_id created.1
            (printer_uri rec.config st.host st.port)),
      created.1,
    )

-- The worker starts only if the response could be built.
abbrev pub spawn_if_ok : List PrintTask → Reply → Reply
spawn_if_ok tasks r = elim r.answer [ ok resp ↦ record r { spawned = tasks } | err e ↦ r ]

-- Once `read_to_end` is done.
unfoldable pub print_payload :
    Env → AppState → String → PrinterRecord → Request → Result String (List ℕ) → Reply
unfolding create_and_accept print_task
print_payload env st name rec req (err e) = refuse st bad_request e
print_payload env st name rec req (ok payload) =
    let accepted = create_and_accept env st name rec req in
    spawn_if_ok (print_task name accepted.1 payload req ∷ []) accepted.0

unfoldable pub handle_print_job : Env → AppState → String → PrinterRecord → Request → Reply
unfolding print_payload
handle_print_job env st name rec req = print_payload env st name rec req req.payload

unfoldable pub handle_create_job : Env → AppState → String → PrinterRecord → Request → Reply
unfolding create_and_accept
handle_create_job env st name rec req = (create_and_accept env st name rec req).0

unfoldable pub if_found : AppState → JobId → (JobRecord → Reply) → Option JobRecord → Reply
unfolding show
if_found st id f none = refuse st not_found (concat ("job not found: " ∷ show id ∷ []))
if_found st id f (some job) = f job

-- `job_id.ok_or(..)?` and `jobs.get(job_id).ok_or(..)?`; `missing` is the operation's own message.
unfoldable pub with_job : AppState → String → Option JobId → (JobRecord → Reply) → Reply
unfolding get if_found
with_job st missing none f = refuse st bad_request missing
with_job st missing (some id) f = if_found st id f (get st.jobs id)

unfoldable pub attach_payload :
    Env → AppState → String → PrinterRecord → Request → JobRecord → Result String (List ℕ) → Reply
unfolding print_task build_job_attrs_response printer_uri
attach_payload env st name rec req job (err e) = refuse st bad_request e
attach_payload env st name rec req job (ok payload) =
    let r = reply st (
      build_job_attrs_response env.crate env.up req.version req.request_id job
        (printer_uri rec.config st.host st.port) none) in
    if is_nil payload then r else record r { spawned = print_task name job payload req ∷ [] }

unfoldable pub attach_document :
    Env → AppState → String → PrinterRecord → Request → JobRecord → Reply
unfolding attach_payload
attach_document env st name rec req job = attach_payload env st name rec req job req.payload

unfoldable pub handle_send_document : Env → AppState → String → PrinterRecord → Request → Reply
unfolding has_operation_attr extract_job_id with_job attach_document
handle_send_document env st name rec req =
    if not (has_operation_attr req "last-document")
    then plain env st req.version client_error_bad_request req.request_id
    else with_job st "Send-Document missing job-id" (extract_job_id req)
        (attach_document env st name rec req)

-- The jobs that Get-Jobs lists.
unfoldable pub listed_jobs : JobRegistry → String → Request → List JobRecord
unfolding jobs_for_printer my_jobs_flag requesting_user
listed_jobs r name req =
    let jobs = jobs_for_printer r name in
    if my_jobs_flag req then keep (λ (j : JobRecord). j.owner =ˢ requesting_user req) jobs else jobs

unfoldable pub handle_get_jobs : Env → AppState → String → PrinterRecord → Request → Reply
unfolding listed_jobs build_get_jobs_response printer_uri effective_filter
    extract_requested_attributes
handle_get_jobs env st name rec req = reply st (
    build_get_jobs_response env.crate env.up req.version req.request_id
      (listed_jobs st.jobs name req) (printer_uri rec.config st.host st.port)
      (effective_filter (extract_requested_attributes env.crate req) ("job-uri" ∷ "job-id" ∷ [])))

unfoldable pub handle_get_job_attributes : Env → AppState → PrinterRecord → Request → Reply
unfolding extract_job_id with_job build_job_attrs_response printer_uri effective_filter
    extract_requested_attributes
handle_get_job_attributes env st rec req =
    with_job st "Get-Job-Attributes missing job-id" (extract_job_id req) (λ job. reply st (
      build_job_attrs_response env.crate env.up req.version req.request_id job
        (printer_uri rec.config st.host st.port)
        (effective_filter (extract_requested_attributes env.crate req) [])))

abbrev pub cancel_status : Option JobState → IppStatus
cancel_status none = client_error_not_found
cancel_status (some canceled) = successful_ok
cancel_status (some _) = client_error_not_possible

unfoldable pub cancel_named : Env → AppState → Request → Option JobId → Reply
unfolding Job.cancel
cancel_named env st req none = refuse st bad_request "Cancel-Job missing job-id"
cancel_named env st req (some id) =
    let after = Job.cancel st.jobs id env.now in
    plain env (record st { jobs = after.0 }) req.version (cancel_status after.1) req.request_id

unfoldable pub handle_cancel_job : Env → AppState → Request → Reply
unfolding extract_job_id cancel_named
handle_cancel_job env st req = cancel_named env st req (extract_job_id req)

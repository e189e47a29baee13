-- ===== src/Server/Dispatch/Frame.antt =====
-- src/server.rs, `handle_ipp`: what any request may do to the shared state.
use ipp_printer_app.Base.{
  eq_refl, ℕ, some, Option, Bool, List, Result, String, [], all, arith, err, false, if◌then◌else◌,
  is_nil, none, not, ok, refl, true, ◌&&◌, ◌=ˢ◌, ◌∷◌, ◌≡◌, ◌≤◌,
}
use ipp_printer_app.Job.{JobRecord, JobRegistry, SystemTime, jobs_for_printer}
use ipp_printer_app.Job
use ipp_printer_app.Job.History.{Op, creates, cancels, run, creations}
use ipp_printer_app.Printer.{PrinterRecord}
use ipp_printer_app.Ipp.{Request, Response, Operation, IppStatus}
use ipp_printer_app.Ipp
use ipp_printer_app.Server.{AppState}
use ipp_printer_app.Server.Request.{extract_job_id, requesting_user, has_operation_attr}
use ipp_printer_app.Server.Handler.{
  Env, Reply, Failure, bad_request, not_found, internal_server_error, or_internal, reply, refuse,
  PrintTask,
}
use ipp_printer_app.Server.Operations.{
  create_and_accept, handle_print_job, handle_create_job, with_job, attach_document,
  handle_send_document, handle_get_jobs, handle_get_job_attributes, handle_cancel_job, spawn_if_ok,
  print_payload, attach_payload, if_found, cancel_named,
}
use ipp_printer_app.Server.Dispatch.{handle_operation, from_code}

-- The client's fault, answered by an HTTP status.
abbrev pub is_refusal : Result Failure Response → Bool
is_refusal (ok r) = false
is_refusal (err (bad_request, e)) = true
is_refusal (err (not_found, e)) = true
is_refusal (err (internal_server_error, e)) = false

-- A creation for the printer of the request's path, or a cancellation.
abbrev pub is_request_op : String → Op → Bool
is_request_op name (creates printer user now) = printer =ˢ name
is_request_op name (cancels id now) = true
is_request_op name _ = false

-- A reply whose state is `st` after registry operations that a request may cause, at most one of them a creation,
-- and none of them, nor a worker, if the request was refused.
pub record IsLawful (st : AppState) (name : String) (r : Reply) : Type 0 where
  pub ops : List Op
  pub effect : r.state ≡ record st { jobs = run st.jobs ops }
  pub allowed : all (is_request_op name) ops ≡ true
  pub one : creations ops ≤ 1
  pub refused : (is_refusal r.answer && not (is_nil ops && is_nil r.spawned)) ≡ false

pub is_refusal-or_internal : (x : Result String Response) → is_refusal (or_internal x) ≡ false
is_refusal-or_internal (ok r) = refl
is_refusal-or_internal (err e) = refl

pub answered : (x : Result String Response) (b : Bool) → (is_refusal (or_internal x) && b) ≡ false
answered (ok r) b = refl
answered (err e) b = refl

module _ (env : Env) (st : AppState) (name : String) where
  pub still-IsLawful :
      (r : Reply)
      → r.state ≡ st
      → (is_refusal r.answer && not (is_nil r.spawned)) ≡ false
      → IsLawful st name r
  unfolding run
  still-IsLawful r same idle = record {
    ops = [];
    effect = same;
    allowed = refl;
    one = omega arith;
    refused = idle;
  }

  pub refuse-IsLawful : (e : Failure) → IsLawful st name (refuse st e.0 e.1)
  refuse-IsLawful e = still-IsLawful _ refl (ground arith)

  pub reply-IsLawful : (x : Result String Response) → IsLawful st name (reply st x)
  reply-IsLawful x = still-IsLawful _ refl (rw (is_refusal-or_internal x) refl)

  one_op-IsLawful :
      (op : Op) (r : Reply)
      → r.state ≡ record st { jobs = run st.jobs (op ∷ []) }
      → is_request_op name op ≡ true
      → is_refusal r.answer ≡ false
      → IsLawful st name r
  one_op-IsLawful op r same may fine = record {
    ops = op ∷ [];
    effect = same;
    allowed = ground arith;
    one = ground arith;
    refused = ground arith;
  }

  spawn_if_ok-IsLawful :
      (tasks : List PrintTask) (op : Op) (x : Result String Response) (after : AppState)
      → after ≡ record st { jobs = run st.jobs (op ∷ []) }
      → is_request_op name op ≡ true
      → IsLawful st name (spawn_if_ok tasks (reply after x))
  spawn_if_ok-IsLawful tasks op (ok r) after same may = one_op-IsLawful op _ same may refl
  spawn_if_ok-IsLawful tasks op (err e) after same may = one_op-IsLawful op _ same may refl

  pub if-IsLawful :
      (c : Bool) {a b : Reply}
      → IsLawful st name a
      → IsLawful st name b
      → IsLawful st name (if c then a else b)
  if-IsLawful true h k = h
  if-IsLawful false h k = k

  module _ (req : Request) where
    abbrev creation : Op
    unfolding requesting_user
    creation = creates name (requesting_user req) env.now

    created :
        record st { jobs = (Job.create st.jobs name (requesting_user req) env.now).0 }
        ≡ record st { jobs = run st.jobs (creation ∷ []) }
    unfolding creation run
    created = refl

    own : is_request_op name creation ≡ true
    unfolding creation
    own = eq_refl name

    module _ (rec : PrinterRecord) where
      print_payload-IsLawful :
          (x : Result String (List ℕ)) → IsLawful st name (print_payload env st name rec req x)
      unfolding print_payload create_and_accept
      print_payload-IsLawful (err e) = refuse-IsLawful (bad_request, e)
      print_payload-IsLawful (ok payload) = spawn_if_ok-IsLawful _ creation _ _ created own

      create_job-IsLawful : IsLawful st name (handle_create_job env st name rec req)
      unfolding handle_create_job create_and_accept
      create_job-IsLawful = one_op-IsLawful creation _ created own (is_refusal-or_internal _)

      attach_payload-IsLawful :
          (job : JobRecord) (x : Result String (List ℕ))
          → IsLawful st name (attach_payload env st name rec req job x)
      unfolding attach_payload
      attach_payload-IsLawful job (err e) = refuse-IsLawful (bad_request, e)
      attach_payload-IsLawful job (ok []) = reply-IsLawful _
      attach_payload-IsLawful job (ok (b ∷ bs)) =
          still-IsLawful _ refl (rw (is_refusal-or_internal _) refl)

      if_found-IsLawful :
          (id : ℕ) (f : JobRecord → Reply) (x : Option JobRecord)
          → ((job : JobRecord) → IsLawful st name (f job))
          → IsLawful st name (if_found st id f x)
      unfolding if_found
      if_found-IsLawful id f none h = refuse-IsLawful (not_found, _)
      if_found-IsLawful id f (some job) h = h job

      with_job-IsLawful :
          (missing : String) (id : Option ℕ) (f : JobRecord → Reply)
          → ((job : JobRecord) → IsLawful st name (f job))
          → IsLawful st name (with_job st missing id f)
      unfolding with_job
      with_job-IsLawful missing none f h = refuse-IsLawful (bad_request, missing)
      with_job-IsLawful missing (some id) f h = if_found-IsLawful id f (Job.get st.jobs id) h

      send_document-IsLawful : IsLawful st name (handle_send_document env st name rec req)
      unfolding handle_send_document attach_document
      send_document-IsLawful =
          if-IsLawful (not (has_operation_attr req "last-document")) (reply-IsLawful _)
            (with_job-IsLawful _ _ _ (λ job. attach_payload-IsLawful job req.payload))

      get_jobs-IsLawful : IsLawful st name (handle_get_jobs env st name rec req)
      unfolding handle_get_jobs
      get_jobs-IsLawful = reply-IsLawful _

      get_job_attributes-IsLawful : IsLawful st name (handle_get_job_attributes env st rec req)
      unfolding handle_get_job_attributes
      get_job_attributes-IsLawful = with_job-IsLawful _ _ _ (λ job. reply-IsLawful _)

      cancel_named-IsLawful : (id : Option ℕ) → IsLawful st name (cancel_named env st req id)
      unfolding cancel_named run
      cancel_named-IsLawful none = refuse-IsLawful (bad_request, _)
      cancel_named-IsLawful (some id) =
          one_op-IsLawful (cancels id env.now) _ refl refl (is_refusal-or_internal _)

      handle_operation-IsLawful :
          (op : Operation) → IsLawful st name (handle_operation env st name rec req op)
      unfolding handle_operation handle_print_job handle_cancel_job
      handle_operation-IsLawful Ipp.get_printer_attributes = reply-IsLawful _
      handle_operation-IsLawful Ipp.validate_job = reply-IsLawful _
      handle_operation-IsLawful Ipp.print_job = print_payload-IsLawful req.payload
      handle_operation-IsLawful Ipp.create_job = create_job-IsLawful
      handle_operation-IsLawful Ipp.send_document = send_document-IsLawful
      handle_operation-IsLawful Ipp.get_jobs = get_jobs-IsLawful
      handle_operation-IsLawful Ipp.get_job_attributes = get_job_attributes-IsLawful
      handle_operation-IsLawful Ipp.cancel_job = cancel_named-IsLawful (extract_job_id req)
      handle_operation-IsLawful (Ipp.other_operation n) = refuse-IsLawful (bad_request, _)

      pub from_code-IsLawful :
          (op : Option Operation) → IsLawful st name (from_code env st name rec req op)
      unfolding from_code
      from_code-IsLawful none = refuse-IsLawful (bad_request, _)
      from_code-IsLawful (some op) = handle_operation-IsLawful op

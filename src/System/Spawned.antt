-- ===== src/System/Spawned.antt =====
-- src/server.rs, `handle_ipp`: the print workers that a request starts.
use ipp_printer_app.Base.{
  All, Bool, Bool-cases, List, Option, Result, String, [], any, ap, err, false, find, if◌then◌else◌,
  inl, inr, none, not, ok, refl, some, true, ℕ, ◌&&◌, ◌==◌, ◌∙◌, ◌∷◌, ◌≡◌,
}
use ipp_printer_app.Job.{JobRecord, get}
use ipp_printer_app.Job.Invariant.{IsValid}
use ipp_printer_app.Printer.{PrinterRecord, is_named}
use ipp_printer_app.Ipp.{Request, Response, Operation}
use ipp_printer_app.Ipp
use ipp_printer_app.Server.{AppState}
use ipp_printer_app.Server.Request.{extract_job_id, requesting_user, has_operation_attr}
use ipp_printer_app.Server.Wire.{operation_attributes_well_ordered}
use ipp_printer_app.Server.Handler.{
  Env, Reply, PrintTask, reply, close_job, cancel_my_jobs, identify_printer,
}
use ipp_printer_app.Server.Operations.{
  create_and_accept, print_payload, print_task, handle_print_job, handle_create_job,
  handle_send_document, attach_payload, attach_document, with_job, if_found, handle_get_jobs,
  handle_get_job_attributes, handle_cancel_job, cancel_named, spawn_if_ok,
}
use ipp_printer_app.Server.Operations.Printing.{get-create_self}
use ipp_printer_app.Server.Dispatch.{
  handle_operation, from_code, handle_code, is_foreign, route, handle_request, handle_parsed,
  handle_ipp,
}
use ipp_printer_app.Job.Find.{find-has_id}

-- The task of a job that the registry has exactly as the task has it, for a queue of the registry.
abbrev pub IsBacked : AppState → PrintTask → Type 0
IsBacked st t =
    (get st.jobs t.job.id ≡ some t.job) × (any (is_named t.printer_name) st.printers ≡ true)

abbrev pub AreBacked : Reply → Type 0
AreBacked r = All (IsBacked r.state) r.spawned

if-AreBacked : (c : Bool) (a b : Reply) → AreBacked a → AreBacked b → AreBacked (if c then a else b)
if-AreBacked true a b h k = h
if-AreBacked false a b h k = k

spawn_if_ok-AreBacked :
    (t : PrintTask) (after : AppState) (x : Result String Response)
    → IsBacked after t
    → AreBacked (spawn_if_ok (t ∷ []) (reply after x))
spawn_if_ok-AreBacked t after (ok r) h = (h, tt)
spawn_if_ok-AreBacked t after (err e) h = tt

any-find :
    (name : String) (ps : List PrinterRecord) (rec : PrinterRecord)
    → find (is_named name) ps ≡ some rec
    → any (is_named name) ps ≡ true
any-find name [] rec e = cc e
any-find name (p ∷ ps) rec e = elim (Bool-cases (is_named name p)) [
  | inl hit ↦ rw hit refl
  | inr miss ↦ rw miss (any-find name ps rec (rw miss at e))
]

module _ (env : Env) (st : AppState) (name : String) (valid : IsValid st.jobs) where
  module _ (rec : PrinterRecord) (req : Request)
      (here : any (is_named name) st.printers ≡ true) where
    print_payload-AreBacked :
        (x : Result String (List ℕ)) → AreBacked (print_payload env st name rec req x)
    unfolding print_payload create_and_accept print_task
    print_payload-AreBacked (err e) = tt
    print_payload-AreBacked (ok payload) =
        spawn_if_ok-AreBacked _ _ _
          (get-create_self st.jobs name (requesting_user req) env.now valid, here)

    attach_payload-AreBacked :
        (id : ℕ) (job : JobRecord) (x : Result String (List ℕ))
        → get st.jobs id ≡ some job
        → AreBacked (attach_payload env st name rec req job x)
    unfolding attach_payload print_task
    attach_payload-AreBacked id job (err e) found = tt
    attach_payload-AreBacked id job (ok []) found = tt
    attach_payload-AreBacked id job (ok (b ∷ bs)) found =
        let same : job.id ≡ id = unfold get in find-has_id id st.jobs.jobs job found in
        ((ap (get st.jobs) same ∙ found, here), tt)

    with_job-AreBacked :
        (missing : String) (id : Option ℕ) (f : JobRecord → Reply)
        → ((k : ℕ) (job : JobRecord) → get st.jobs k ≡ some job → AreBacked (f job))
        → AreBacked (with_job st missing id f)
    unfolding with_job if_found
    with_job-AreBacked missing none f h = tt
    with_job-AreBacked missing (some id) f h = go (get st.jobs id) refl
      where
        go : (x : Option JobRecord) → get st.jobs id ≡ x → AreBacked (if_found st id f x)
        go none e = tt
        go (some job) e = h id job e

    cancel_named-AreBacked : (id : Option ℕ) → AreBacked (cancel_named env st req id)
    unfolding cancel_named
    cancel_named-AreBacked none = tt
    cancel_named-AreBacked (some id) = tt

    handle_operation-AreBacked :
        (op : Operation) → AreBacked (handle_operation env st name rec req op)
    unfolding handle_operation handle_print_job handle_create_job create_and_accept
        handle_send_document attach_document handle_get_jobs handle_get_job_attributes
        handle_cancel_job
    handle_operation-AreBacked Ipp.get_printer_attributes = tt
    handle_operation-AreBacked Ipp.validate_job = tt
    handle_operation-AreBacked Ipp.print_job = print_payload-AreBacked req.payload
    handle_operation-AreBacked Ipp.create_job = tt
    handle_operation-AreBacked Ipp.send_document =
        if-AreBacked (not (has_operation_attr req "last-document")) _ _ tt (
          with_job-AreBacked _ _ _
            (λ id job found. attach_payload-AreBacked id job req.payload found))
    handle_operation-AreBacked Ipp.get_jobs = tt
    handle_operation-AreBacked Ipp.get_job_attributes =
        with_job-AreBacked _ _ _ (λ id job found. tt)
    handle_operation-AreBacked Ipp.cancel_job = cancel_named-AreBacked (extract_job_id req)
    handle_operation-AreBacked (Ipp.other_operation n) = tt

    from_code-AreBacked : (op : Option Operation) → AreBacked (from_code env st name rec req op)
    unfolding from_code
    from_code-AreBacked none = tt
    from_code-AreBacked (some op) = handle_operation-AreBacked op

    handle_code-AreBacked : AreBacked (handle_code env st name rec req)
    unfolding handle_code close_job identify_printer cancel_my_jobs
    handle_code-AreBacked = if-AreBacked (req.op_code == 0x3b) _ _ tt (
        if-AreBacked (req.op_code == 0x39) _ _ tt (
          if-AreBacked (req.op_code == 0x3c) _ _ tt
            (from_code-AreBacked (env.crate.from_u16 req.op_code))))

  route-AreBacked :
      (req : Request) (found : Option PrinterRecord)
      → find (is_named name) st.printers ≡ found
      → AreBacked (route env st name req found)
  unfolding route
  route-AreBacked req none e = tt
  route-AreBacked req (some rec) e = handle_code-AreBacked rec req (any-find name st.printers rec e)

  handle_request-AreBacked :
      (body : List ℕ) (req : Request) → AreBacked (handle_request env st name body req)
  unfolding handle_request
  handle_request-AreBacked body req = if-AreBacked (is_foreign req.version) _ _ tt (
      if-AreBacked (not (operation_attributes_well_ordered body)) _ _ tt (
        if-AreBacked (req.request_id == 0) _ _ tt (
          if-AreBacked
            (not (has_operation_attr req "printer-uri") && not (has_operation_attr req "job-uri")) _
            _ tt (route-AreBacked req (find (is_named name) st.printers) refl))))

  handle_parsed-AreBacked :
      (body : List ℕ) (x : Result String Request) → AreBacked (handle_parsed env st name body x)
  unfolding handle_parsed
  handle_parsed-AreBacked body (err e) = tt
  handle_parsed-AreBacked body (ok req) = handle_request-AreBacked body req

  -- In a well-formed registry, every worker that a request starts is for a job that the registry has, with the same
  -- cancel flag, and for a queue that exists.
  pub handle_ipp-AreBacked : (body : List ℕ) → AreBacked (handle_ipp env st name body)
  unfolding handle_ipp
  handle_ipp-AreBacked body = handle_parsed-AreBacked body (env.crate.parse body)

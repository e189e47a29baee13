-- ===== src/Server/Dispatch/Requests.antt =====
-- src/server.rs, `handle_ipp`: that every request is a few registry operations, and what follows for a server
-- that only takes requests.
use ipp_printer_app.Base.{
  List, Option, Result, String, [], all, ap, arith, err, find, length, none, not, ok, refl, some,
  true, ℕ, ◌&&◌, ◌+◌, ◌<◌, ◌==◌, ◌∷◌, ◌≡◌,
}
use ipp_printer_app.Job.{JobRecord, JobRegistry, SystemTime, jobs_for_printer}
use ipp_printer_app.Job.Invariant.{IsValid}
use ipp_printer_app.Job.History.{Op, cancels, run, creations, run-IsValid}
use ipp_printer_app.Printer.{PrinterRecord, is_named}
use ipp_printer_app.Ipp.{Request}
use ipp_printer_app.Server.{AppState}
use ipp_printer_app.Server.Request.{has_operation_attr}
use ipp_printer_app.Server.Handler.{
  Env, bad_request, not_found, cancel_all, cancel_my_jobs, close_job, identify_printer,
}
use ipp_printer_app.Server.Wire.{operation_attributes_well_ordered}
use ipp_printer_app.Server.Dispatch.{
  handle_code, handle_request, handle_ipp, is_foreign, route, handle_parsed,
}
use ipp_printer_app.Server.Dispatch.Frame.{
  is_request_op, IsLawful, refuse-IsLawful, reply-IsLawful, if-IsLawful, from_code-IsLawful,
  still-IsLawful, answered,
}

module _ (now : SystemTime) where
  abbrev cancellations : List JobRecord → List Op
  cancellations [] = []
  cancellations (j ∷ js) = cancels j.id now ∷ cancellations js

  cancel_all-run :
      (js : List JobRecord) (r : JobRegistry) → cancel_all now js r ≡ run r (cancellations js)
  unfolding cancel_all run
  cancel_all-run [] r = refl
  cancel_all-run (j ∷ js) r = cancel_all-run js _

  all-cancellations :
      (name : String) (js : List JobRecord) → all (is_request_op name) (cancellations js) ≡ true
  all-cancellations name [] = refl
  all-cancellations name (j ∷ js) = all-cancellations name js

  creations-cancellations : (js : List JobRecord) → creations (cancellations js) ≡ 0
  creations-cancellations [] = refl
  creations-cancellations (j ∷ js) = omega (arith, creations-cancellations js)

module _ (env : Env) (st : AppState) (name : String) where
  cancel_my_jobs-IsLawful : (req : Request) → IsLawful st name (cancel_my_jobs env st name req)
  unfolding cancel_my_jobs
  cancel_my_jobs-IsLawful req = record {
    ops = cancellations env.now (jobs_for_printer st.jobs name);
    effect =
        ap (λ r. record st { jobs = r })
          (cancel_all-run env.now (jobs_for_printer st.jobs name) st.jobs);
    allowed = all-cancellations env.now name (jobs_for_printer st.jobs name);
    one = omega (arith, creations-cancellations env.now (jobs_for_printer st.jobs name));
    refused = answered _ _;
  }

  handle_code-IsLawful :
      (rec : PrinterRecord) (req : Request) → IsLawful st name (handle_code env st name rec req)
  unfolding handle_code close_job identify_printer
  handle_code-IsLawful rec req =
      if-IsLawful env st name (req.op_code == 0x3b) (reply-IsLawful env st name _) (
        if-IsLawful env st name (req.op_code == 0x39) (cancel_my_jobs-IsLawful req) (
          if-IsLawful env st name (req.op_code == 0x3c)
            (still-IsLawful env st name _ refl (answered _ _))
            (from_code-IsLawful env st name req rec (env.crate.from_u16 req.op_code))))

  route-IsLawful :
      (req : Request) (found : Option PrinterRecord)
      → IsLawful st name (route env st name req found)
  unfolding route
  route-IsLawful req none = refuse-IsLawful env st name (not_found, _)
  route-IsLawful req (some rec) = handle_code-IsLawful rec req

  handle_request-IsLawful :
      (body : List ℕ) (req : Request) → IsLawful st name (handle_request env st name body req)
  unfolding handle_request
  handle_request-IsLawful body req =
      if-IsLawful env st name (is_foreign req.version) (reply-IsLawful env st name _) (
        if-IsLawful env st name (not (operation_attributes_well_ordered body))
          (reply-IsLawful env st name _)
          (if-IsLawful env st name (req.request_id == 0) (reply-IsLawful env st name _) (
            if-IsLawful env st name
              (not (has_operation_attr req "printer-uri") && not (has_operation_attr req "job-uri"))
              (reply-IsLawful env st name _)
              (route-IsLawful req (find (is_named name) st.printers)))))

  handle_parsed-IsLawful :
      (body : List ℕ) (x : Result String Request)
      → IsLawful st name (handle_parsed env st name body x)
  unfolding handle_parsed
  handle_parsed-IsLawful body (err e) = refuse-IsLawful env st name (bad_request, _)
  handle_parsed-IsLawful body (ok req) = handle_request-IsLawful body req

  -- Whatever bytes arrive: the request changes nothing but the job registry, and changes that by registry
  -- operations of which each cancels a job or creates one for the printer of the path, at most one creating; and a
  -- request refused with HTTP status 400 or 404 changes nothing and starts no print worker.
  pub handle_ipp-IsLawful : (body : List ℕ) → IsLawful st name (handle_ipp env st name body)
  unfolding handle_ipp
  handle_ipp-IsLawful body = handle_parsed-IsLawful body (env.crate.parse body)

-- A request leaves a well-formed job registry well-formed, if fewer than 2^32 - 3 jobs were created.
pub handle_ipp-IsValid :
    (env : Env) (st : AppState) (name : String) (body : List ℕ)
    → IsValid st.jobs
    → length st.jobs.jobs + 3 < 4294967296
    → IsValid (handle_ipp env st name body).state.jobs
handle_ipp-IsValid env st name body valid room =
    let law : IsLawful st name (handle_ipp env st name body) =
      handle_ipp-IsLawful env st name body in
    rw law.effect (run-IsValid st.jobs law.ops valid (omega (arith, law.one)))

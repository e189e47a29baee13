-- ===== src/Server/Operations/Printing.antt =====
-- src/server.rs: the two ways to submit a document, Print-Job, and Create-Job with Send-Document.
use ipp_printer_app.Base.{
  sym, ◌∙◌, ap, is_nil, some, [], ◌∷◌, Bool, List, Result, String, arith, err, false, ok, refl,
  true, ℕ, ◌≡◌,
}
use ipp_printer_app.Job.{JobRegistry, SystemTime, JobRecord, create, get, is_canceled, pending}
use ipp_printer_app.Job.Invariant.{IsValid, get-create, get_or-end}
use ipp_printer_app.Printer.{PrinterRecord, printer_uri}
use ipp_printer_app.Ipp.{Request, Response, IppCrate, IsFaithful}
use ipp_printer_app.Attributes.{and_add}
use ipp_printer_app.Attributes.Jobs.{print_job_accepted}
use ipp_printer_app.Server.{AppState}
use ipp_printer_app.Server.Request.{has_operation_attr, extract_job_id, requesting_user}
use ipp_printer_app.Server.Handler.{Env, Reply, PrintTask, or_internal}
use ipp_printer_app.Server.Operations.{
  print_task, handle_print_job, handle_create_job, handle_send_document, print_payload,
  create_and_accept, spawn_if_ok, with_job, if_found, attach_document, attach_payload,
}

abbrev pub is_ok {ℓ κ} : {E : Type ℓ} {A : Type κ} → Result E A → Bool
is_ok (ok a) = true
is_ok (err e) = false

is_ok-and_add :
    (x : Result String Response) (f : _) → is_ok x ≡ true → is_ok (or_internal (and_add x f)) ≡ true
is_ok-and_add (ok r) f h = refl
is_ok-and_add (err e) f h = h

module _ (crate : IppCrate) (faithful : IsFaithful crate) where
  is_ok-print_job_accepted :
      (version request_id : ℕ) (job : JobRecord) (uri : String)
      → is_ok (or_internal (print_job_accepted crate version request_id job uri)) ≡ true
  unfolding print_job_accepted
  is_ok-print_job_accepted version request_id job uri = is_ok-and_add _ _ (rw (faithful.makes) refl)

spawned-spawn_if_ok :
    (tasks : List PrintTask) (r : Reply)
    → is_ok r.answer ≡ true
    → (spawn_if_ok tasks r).spawned ≡ tasks
spawned-spawn_if_ok tasks r h = ground arith

state-spawn_if_ok : (tasks : List PrintTask) (r : Reply) → (spawn_if_ok tasks r).state ≡ r.state
state-spawn_if_ok tasks r = ground arith

-- The job that a request creates.
unfoldable pub new_job : Env → AppState → String → Request → JobRecord
unfolding create requesting_user
new_job env st name req = (create st.jobs name (requesting_user req) env.now).1

is_canceled-create :
    (r : JobRegistry) (name user : String) (now : SystemTime)
    → is_canceled (create r name user now).1 (create r name user now).0 ≡ false
unfolding is_canceled create
is_canceled-create r name user now = get_or-end r.flags

pub get-create_self :
    (r : JobRegistry) (name user : String) (now : SystemTime)
    → IsValid r
    → get (create r name user now).0 (create r name user now).1.id ≡ some (create r name user now).1
get-create_self r name user now valid =
    ground (arith, get-create r name user now (create r name user now).1.id valid)

module _ (env : Env) (st : AppState) (name : String) (rec : PrinterRecord)
    (faithful : IsFaithful env.crate) where
  print_payload-ok :
      (req : Request) (payload : List ℕ)
      → ((print_payload env st name rec req (ok payload)).spawned
          ≡ print_task name (new_job env st name req) payload req ∷ [])
        × ((print_payload env st name rec req (ok payload)).state
            ≡ (create_and_accept env st name rec req).0.state)
  unfolding print_payload create_and_accept new_job
  print_payload-ok req payload = (
    spawned-spawn_if_ok (print_task name (new_job env st name req) payload req ∷ [])
        (create_and_accept env st name rec req).0
        (is_ok-print_job_accepted env.crate faithful req.version req.request_id
          (new_job env st name req) (printer_uri rec.config st.host st.port)),
    state-spawn_if_ok (print_task name (new_job env st name req) payload req ∷ [])
        (create_and_accept env st name rec req).0,
  )

  print_payload-at :
      (req : Request) (payload : List ℕ) (x : Result String (List ℕ))
      → x ≡ ok payload
      → ((print_payload env st name rec req x).spawned
          ≡ print_task name (new_job env st name req) payload req ∷ [])
        × ((print_payload env st name rec req x).state
            ≡ (create_and_accept env st name rec req).0.state)
  print_payload-at req payload x read = rw read (print_payload-ok req payload)

  get-new_job :
      (req : Request)
      → IsValid st.jobs
      → get (create_and_accept env st name rec req).0.state.jobs (new_job env st name req).id
        ≡ some (new_job env st name req)
  unfolding create_and_accept new_job
  get-new_job req valid = get-create_self st.jobs name (requesting_user req) env.now valid

  -- Print-Job with a payload that can be read: one worker is started, on the payload, with the settings of the
  -- request, for a new job that the registry then has as pending, owned by the requesting user, its cancel flag down.
  pub handle_print_job-spawns :
      (req : Request) (payload : List ℕ)
      → IsValid st.jobs
      → req.payload ≡ ok payload
      → ((handle_print_job env st name rec req).spawned
          ≡ print_task name (new_job env st name req) payload req ∷ [])
        × ((get (handle_print_job env st name rec req).state.jobs (new_job env st name req).id
              ≡ some (new_job env st name req))
            × (((new_job env st name req).state ≡ pending)
                × (((new_job env st name req).owner ≡ requesting_user req)
                    × (is_canceled
                          (new_job env st name req)
                          (handle_print_job env st name rec req).state.jobs
                        ≡ false))))
  unfolding handle_print_job new_job
  handle_print_job-spawns req payload valid read =
      let (spawned, state) = print_payload-at req payload req.payload read in
      (
        spawned,
        (
          rw state (get-new_job req valid),
          (
            refl,
            (
              refl,
              rw state (
                  unfold create_and_accept in
                  is_canceled-create st.jobs name (requesting_user req) env.now),
            ),
          ),
        ),
      )

  attach_payload-at :
      (s : AppState) (req : Request) (job : JobRecord) (payload : List ℕ)
      (x : Result String (List ℕ))
      → x ≡ ok payload
      → is_nil payload ≡ false
      → ((attach_payload env s name rec req job x).spawned ≡ print_task name job payload req ∷ [])
        × ((attach_payload env s name rec req job x).state ≡ s)
  unfolding attach_payload
  attach_payload-at s req job [] x read some_bytes = let no : true ≡ false = some_bytes in cc no
  attach_payload-at s req job (b ∷ bs) x read some_bytes = rw read (refl, refl)

  send-found :
      (s : AppState) (req : Request) (job : JobRecord)
      → has_operation_attr req "last-document" ≡ true
      → extract_job_id req ≡ some job.id
      → get s.jobs job.id ≡ some job
      → handle_send_document env s name rec req ≡ attach_payload env s name rec req job req.payload
  unfolding handle_send_document with_job if_found attach_document
  send-found s req job last named found = rw (last, named, found)

  -- Create-Job and then Send-Document with a payload, for the job that was created and by the same user, start the
  -- worker that a Print-Job request with the content of the Send-Document request starts, and leave the same state.
  pub create_then_send :
      (first second : Request) (payload : List ℕ)
      → IsValid st.jobs
      → requesting_user first ≡ requesting_user second
      → has_operation_attr second "last-document" ≡ true
      → extract_job_id second ≡ some (new_job env st name first).id
      → second.payload ≡ ok payload
      → is_nil payload ≡ false
      → ((handle_send_document env
            (handle_create_job env st name rec first).state
            name
            rec
            second).spawned
          ≡ (handle_print_job env st name rec second).spawned)
        × ((handle_send_document env
              (handle_create_job env st name rec first).state
              name
              rec
              second).state
            ≡ (handle_print_job env st name rec second).state)
  unfolding handle_print_job handle_create_job new_job
  create_then_send first second payload valid user last named read some_bytes =
      let s : AppState = (create_and_accept env st name rec first).0.state in
      let (spawned, state) = print_payload-at second payload second.payload read in
      let (sent, kept) =
        attach_payload-at s second (new_job env st name first) payload second.payload read
          some_bytes in
      let sends =
        send-found s second (new_job env st name first) last named (get-new_job first valid) in
      let same : (create_and_accept env st name rec first).0.state
          ≡ (create_and_accept env st name rec second).0.state =
        unfold create_and_accept in
        ap (λ u. record st { jobs = (create st.jobs name u env.now).0 }) user in
      let job : new_job env st name first ≡ new_job env st name second =
        ap (λ u. (create st.jobs name u env.now).1) user in
      (
        ap (λ (r : Reply). r.spawned) sends
            ∙ sent
            ∙ ap (λ j. print_task name j payload second ∷ []) job
            ∙ sym spawned,
        ap (λ (r : Reply). r.state) sends ∙ kept ∙ same ∙ sym state,
      )

-- ===== src/Attributes/Jobs.antt =====
-- src/attributes.rs: the responses about jobs. `up` is what `uptime_secs` gives.
pub mod Reasons
use ipp_printer_app.Base.{
  Bool, List, Option, Result, String, [], if◌then◌else◌, is_nil, keep, map, none, set, some, ℕ,
  ◌++◌, ◌=ˢ◌, ◌∷◌,
}
use ipp_printer_app.Base.Int.{as_i32, pos, ℤ}
use ipp_printer_app.Flags.{contains}
use ipp_printer_app.Flags.Reason
use ipp_printer_app.Texts.{concat, show}
use ipp_printer_app.Ipp.{
  DelimiterTag, job_attributes, Attr, attr, Group, Response, IppCrate, IppValue, keyword, uri, enum,
  integer, name_without_language, text_without_language, successful_ok, contains_name,
}
use ipp_printer_app.Job.{
  JobRecord, JobState, canceled, completed, aborted, job_state_code, created_secs, completed_secs,
}
use ipp_printer_app.Attributes.{keywords, add_all, and_add}

abbrev pub push_if : Bool → String → List String → List String
push_if c s out = if c then out ++ s ∷ [] else out

-- The `match` on the job's state.
abbrev pub push_state : JobState → List String → List String
push_state canceled out = out ++ "job-canceled-by-user" ∷ []
push_state completed out = out ++ "job-completed-successfully" ∷ []
push_state aborted out = push_if (is_nil out) "aborted-by-system" out
push_state _ out = out

abbrev pub push_none : List String → List String
push_none out = push_if (is_nil out) "none" out

abbrev pub push_conditions : JobRecord → List String
push_conditions job = push_if (contains job.reasons Reason.offline) "connection-error" (
    push_if (contains job.reasons Reason.media_jam) "aborted-by-system"
      (push_if (contains job.reasons Reason.media_empty) "job-completed-with-errors" []))

unfoldable pub job_state_reason_keywords : JobRecord → List String
job_state_reason_keywords job = push_none (push_state job.state (push_conditions job))

-- `format!("{printer_uri_str}/job/{}", job.id)`
unfoldable pub job_uri : String → ℕ → String
unfolding show
job_uri printer_uri id = concat (printer_uri ∷ "/job/" ∷ show id ∷ [])

abbrev pub message_attrs : String → List Attr
message_attrs message =
    if message =ˢ "" then [] else attr "job-state-message" (text_without_language message) ∷ []

abbrev pub completed_attrs : Option ℤ → List Attr
completed_attrs none = []
completed_attrs (some s) = attr "time-at-completed" (integer s) ∷ []

abbrev pub retain_requested : Option (List String) → List Attr → List Attr
retain_requested none attrs = attrs
retain_requested (some set) attrs = keep (λ (a : Attr). contains_name a.name set) attrs

module _ (crate : IppCrate) where
  unfoldable pub all_job_attrs : ℕ → JobRecord → String → List Attr
  unfolding job_uri job_state_reason_keywords show created_secs completed_secs
  all_job_attrs up job printer_uri =
      (attr "job-uri" (uri (job_uri printer_uri job.id))
        ∷ attr "job-id" (integer (as_i32 job.id))
        ∷ attr "job-printer-uri" (uri printer_uri)
        ∷ attr "job-name" (name_without_language (concat ("job-" ∷ show job.id ∷ [])))
        ∷ attr "job-state" (enum (pos (job_state_code job.state)))
        ∷ attr "job-originating-user-name"
            (name_without_language (if crate.name_fits job.owner then job.owner else "anonymous"))
        ∷ attr "time-at-creation" (integer (created_secs job))
        ∷ attr "job-state-reasons" (keywords (job_state_reason_keywords job))
        ∷ [])
      ++ (message_attrs job.message
          ++ ((attr "time-at-processing" (integer (created_secs job))
                ∷ attr "job-printer-up-time" (integer (as_i32 up))
                ∷ [])
              ++ completed_attrs (completed_secs job)))

  unfoldable pub job_attrs_for_group : ℕ → JobRecord → String → Option (List String) → List Attr
  unfolding all_job_attrs
  job_attrs_for_group up job printer_uri requested =
      retain_requested requested (all_job_attrs up job printer_uri)

  unfoldable pub print_job_accepted : ℕ → ℕ → JobRecord → String → Result String Response
  unfolding add_all job_uri job_state_reason_keywords
  print_job_accepted version request_id job printer_uri =
      and_add (crate.new_response version successful_ok request_id) (
        add_all crate job_attributes (
          attr "job-uri" (uri (job_uri printer_uri job.id))
          ∷ attr "job-id" (integer (as_i32 job.id))
          ∷ attr "job-state" (enum (pos (job_state_code job.state)))
          ∷ attr "job-state-reasons" (keywords (job_state_reason_keywords job))
          ∷ []))

  unfoldable pub build_job_attrs_response :
      ℕ → ℕ → ℕ → JobRecord → String → Option (List String) → Result String Response
  unfolding add_all job_attrs_for_group
  build_job_attrs_response up version request_id job printer_uri requested =
      and_add (crate.new_response version successful_ok request_id)
        (add_all crate job_attributes (job_attrs_for_group up job printer_uri requested))

  -- One group for each job, whose hash map takes the attributes one by one.
  unfoldable pub job_groups : ℕ → List JobRecord → String → Option (List String) → List Group
  unfolding job_attrs_for_group
  job_groups up jobs printer_uri requested =
      map
        (λ job. record {
          tag = job_attributes;
          attributes = job_attrs_for_group up job printer_uri requested;
        })
        jobs

  unfoldable pub build_get_jobs_response :
      ℕ → ℕ → ℕ → List JobRecord → String → Option (List String) → Result String Response
  unfolding job_groups
  build_get_jobs_response up version request_id jobs printer_uri requested =
      and_add (crate.new_response version successful_ok request_id)
        (λ groups. groups ++ job_groups up jobs printer_uri requested)

-- ===== src/Server/Operations/Listing.antt =====
-- src/server.rs: Get-Jobs.
use ipp_printer_app.Base.{
  ap, ◌++◌, ◌∙◌, none, some, map, Bool, Bool-cases, List, Result, String, [], arith, err, inl, inr,
  keep, not, ok, refl, ◌&&◌, ◌=ˢ◌, ◌||◌, ◌∷◌, ◌≡◌,
}
use ipp_printer_app.Base.Int.{as_i32}
use ipp_printer_app.Job.{JobRecord, JobRegistry, jobs_for_printer}
use ipp_printer_app.Printer.{PrinterRecord, printer_uri}
use ipp_printer_app.Ipp
use ipp_printer_app.Ipp.{
  Attr, attr, Group, Request, Response, IsFaithful, job_attributes, uri, integer,
}
use ipp_printer_app.Attributes.Jobs.{
  job_uri, job_attrs_for_group, all_job_attrs, job_groups, build_get_jobs_response,
}
use ipp_printer_app.Server.{AppState}
use ipp_printer_app.Server.Request.{
  my_jobs_flag, requesting_user, extract_requested_attributes, effective_filter,
}
use ipp_printer_app.Server.Handler.{Env, Failure}
use ipp_printer_app.Server.Operations.Canceling.{status_of}
use ipp_printer_app.Server.Operations.{listed_jobs, handle_get_jobs}

keep-keep {ℓ} :
    {A : Type ℓ} (p q : A → Bool) (xs : List A) → keep q (keep p xs) ≡ keep (λ x. p x && q x) xs
keep-keep p q [] = refl
keep-keep p q (x ∷ xs) = ground (arith, keep-keep p q xs)

keep-ext {ℓ} :
    {A : Type ℓ} (p q : A → Bool) (xs : List A) → ((x : A) → p x ≡ q x) → keep p xs ≡ keep q xs
keep-ext p q [] h = refl
keep-ext p q (x ∷ xs) h = ground (arith, h x, keep-ext p q xs h)

-- The jobs that a Get-Jobs request is to list.
abbrev pub is_wanted : String → Request → JobRecord → Bool
unfolding my_jobs_flag requesting_user
is_wanted name req j =
    j.printer_name =ˢ name && (not (my_jobs_flag req) || j.owner =ˢ requesting_user req)

listed_jobs-keep :
    (r : JobRegistry) (name : String) (req : Request)
    → listed_jobs r name req ≡ keep (is_wanted name req) r.jobs
unfolding listed_jobs jobs_for_printer
listed_jobs-keep r name req = elim (Bool-cases (my_jobs_flag req)) [
  | inl mine ↦ rw mine (
      keep-keep (λ j. j.printer_name =ˢ name) (λ j. j.owner =ˢ requesting_user req) r.jobs
      ∙ keep-ext _ _ r.jobs (λ j. ground arith))
  | inr every ↦ rw every (keep-ext _ _ r.jobs (λ j. ground arith))
]

-- The group of a job in an answer without `requested-attributes`.
abbrev pub short_group : String → JobRecord → Group
unfolding job_uri
short_group printer_uri j = record {
  tag = job_attributes;
  attributes =
      attr "job-uri" (uri (job_uri printer_uri j.id)) ∷ attr "job-id" (integer (as_i32 j.id)) ∷ [];
}

abbrev pub groups_of : Result Failure Response → List Group
groups_of (ok r) = r.groups
groups_of (err e) = []

short_attrs :
    (env : Env) (printer_uri : String) (j : JobRecord)
    → job_attrs_for_group env.crate env.up j printer_uri
        (effective_filter none ("job-uri" ∷ "job-id" ∷ []))
      ≡ (short_group printer_uri j).attributes
unfolding job_attrs_for_group all_job_attrs effective_filter
short_attrs env printer_uri j = ground arith

map-ext {ℓ κ} :
    {A : Type ℓ} {B : Type κ} (f g : A → B) (xs : List A)
    → ((x : A) → f x ≡ g x)
    → map f xs ≡ map g xs
map-ext f g [] h = refl
map-ext f g (x ∷ xs) h = rw (h x, map-ext f g xs h) refl

-- Get-Jobs without `requested-attributes` is answered with `successful-ok`: to the groups that the
-- crate gives to a new response it adds one group for each job of the printer, in the order of creation, and only for the jobs of the requesting user if `my-jobs` is set; a group has the URI and
-- the id of its job.
pub handle_get_jobs-lists :
    (env : Env) (st : AppState) (name : String) (rec : PrinterRecord) (req : Request)
    (faithful : IsFaithful env.crate)
    → extract_requested_attributes env.crate req ≡ none
    → let answered = (handle_get_jobs env st name rec req).answer in
      (status_of answered ≡ some Ipp.successful_ok)
      × (groups_of answered
          ≡ faithful.fresh req.version req.request_id
            ++ map
                (short_group (printer_uri rec.config st.host st.port))
                (keep (is_wanted name req) st.jobs.jobs))
unfolding handle_get_jobs build_get_jobs_response job_groups
handle_get_jobs-lists env st name rec req faithful every =
    rw
      (
        faithful.makes req.version Ipp.successful_ok req.request_id,
        every,
        listed_jobs-keep st.jobs name req,
      )
      (
        refl,
        ap (λ gs. faithful.fresh req.version req.request_id ++ gs)
            (map-ext _ _ (keep (is_wanted name req) st.jobs.jobs) (λ j.
              ap (λ attrs. record { tag = job_attributes; attributes = attrs })
                (short_attrs env _ j))),
      )

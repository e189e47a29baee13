-- ===== src/Tests/Requests.antt =====
-- Checks of the request handlers.
use ipp_printer_app.Base.{
  All, List, [], arith, false, keep, map, none, not, refl, some, take, true, ℕ, ◌++◌, ◌||◌, ◌∷◌,
  ◌≡◌,
}
use ipp_printer_app.Base.Int.{pos}
use ipp_printer_app.Job.{JobRecord, get, pending, jobs_for_printer, is_canceled, is_terminal}
use ipp_printer_app.Job.Views.{is_over}
use ipp_printer_app.Printer.{printer_uri}
use ipp_printer_app.Ipp.{Request, operation_attributes}
use ipp_printer_app.Ipp
use ipp_printer_app.Server
use ipp_printer_app.Server.{AppState}
use ipp_printer_app.Server.Request.{
  has_operation_attr, extract_job_id, requesting_user, extract_requested_attributes,
}
use ipp_printer_app.Server.Handler.{cancel_my_jobs}
use ipp_printer_app.Server.Operations.{
  print_task, handle_print_job, handle_create_job, handle_send_document, handle_get_jobs,
  handle_cancel_job,
}
use ipp_printer_app.Server.Operations.Printing.{new_job, handle_print_job-spawns, create_then_send}
use ipp_printer_app.Server.Operations.Canceling.{
  status_of, expected_status, handle_cancel_job-found, is_over-cancel_my_jobs,
}
use ipp_printer_app.Ipp.{successful_ok}
use ipp_printer_app.Server.Operations.Listing.{
  short_group, groups_of, is_wanted, handle_get_jobs-lists,
}
use ipp_printer_app.Server.Wire.{bytes_of, is_ordered, operation_attributes_well_ordered}
use ipp_printer_app.Server.Wire.Encoded.{IsAttr, WireAttr, encode_all}
use ipp_printer_app.Server.Wire.Accept.{names_of, operation_attributes_well_ordered_lem}
use ipp_printer_app.Server.Dispatch.{handle_ipp}
use ipp_printer_app.Server.Dispatch.Frame.{IsLawful}
use ipp_printer_app.Server.Dispatch.Requests.{handle_ipp-IsLawful}
use ipp_printer_app.Tests.{
  one_job, job, one_job-IsValid, get-one_job, server, printer, labels, request, env,
  crate-IsFaithful,
}

-- A Create-Job request, on the wire: version 2.0, the operation, request 7, and no more.
abbrev create_bytes : List ℕ
create_bytes = 2 ∷ 0 ∷ 0 ∷ 5 ∷ 0 ∷ 0 ∷ 0 ∷ 7 ∷ 3 ∷ []

handle_ipp-IsLawful_example : IsLawful server "labels" (handle_ipp env server "labels" create_bytes)
handle_ipp-IsLawful_example = handle_ipp-IsLawful env server "labels" create_bytes

abbrev printing : Request
printing = request 2 (82 ∷ 97 ∷ [])

handle_print_job-spawns_example :
    ((handle_print_job env server "labels" printer printing).spawned
      ≡ print_task "labels" (new_job env server "labels" printing) (82 ∷ 97 ∷ []) printing ∷ [])
    × ((get
            (handle_print_job env server "labels" printer printing).state.jobs
            (new_job env server "labels" printing).id
          ≡ some (new_job env server "labels" printing))
        × (((new_job env server "labels" printing).state ≡ pending)
            × (((new_job env server "labels" printing).owner ≡ requesting_user printing)
                × (is_canceled
                      (new_job env server "labels" printing)
                      (handle_print_job env server "labels" printer printing).state.jobs
                    ≡ false))))
handle_print_job-spawns_example =
    handle_print_job-spawns env server "labels" printer crate-IsFaithful printing (82 ∷ 97 ∷ [])
      one_job-IsValid refl

-- Creates job 2, to which the next request sends its document.
abbrev second : Request
second = record printing {
  op_code = 6;
  groups =
      record {
        tag = operation_attributes;
        attributes =
            Ipp.attr "job-id" (Ipp.integer (pos 2))
            ∷ Ipp.attr "requesting-user-name" (Ipp.name_without_language "ann")
            ∷ Ipp.attr "last-document" (Ipp.boolean true)
            ∷ [];
      }
      ∷ [];
}

abbrev first : Request
first = request 5 []

same_user : requesting_user first ≡ requesting_user second
unfolding requesting_user
same_user = refl

last : has_operation_attr second "last-document" ≡ true
unfolding has_operation_attr
last = refl

named : extract_job_id second ≡ some (new_job env server "labels" first).id
unfolding extract_job_id Server.Request.job_id_of_attr new_job
named = refl

create_then_send_example :
    ((handle_send_document env
        (handle_create_job env server "labels" printer first).state
        "labels"
        printer
        second).spawned
      ≡ (handle_print_job env server "labels" printer second).spawned)
    × ((handle_send_document env
          (handle_create_job env server "labels" printer first).state
          "labels"
          printer
          second).state
        ≡ (handle_print_job env server "labels" printer second).state)
create_then_send_example =
    create_then_send env server "labels" printer crate-IsFaithful first second (82 ∷ 97 ∷ [])
      one_job-IsValid same_user last named refl refl

abbrev canceling : Request
canceling = request 8 []

one_named : extract_job_id canceling ≡ some 1
unfolding extract_job_id Server.Request.job_id_of_attr
one_named = refl

handle_cancel_job-found_example :
    (status_of (handle_cancel_job env server canceling).answer ≡ some (expected_status job.state))
    × (is_canceled job (handle_cancel_job env server canceling).state.jobs
        ≡ (is_canceled job one_job || not (is_terminal job.state)))
handle_cancel_job-found_example =
    handle_cancel_job-found env server canceling job crate-IsFaithful one_job-IsValid one_named
      get-one_job

is_over-cancel_my_jobs_example :
    All
      (λ (j : JobRecord).
        is_over (cancel_my_jobs env server "labels" (request 0x39 [])).state.jobs j.id ≡ true)
      (jobs_for_printer one_job "labels")
is_over-cancel_my_jobs_example = is_over-cancel_my_jobs env server "labels" (request 0x39 [])

every : extract_requested_attributes env.crate (request 10 []) ≡ none
unfolding extract_requested_attributes
every = refl

handle_get_jobs-lists_example :
    let answered = (handle_get_jobs env server "labels" printer (request 10 [])).answer in
    (status_of answered ≡ some successful_ok)
    × (groups_of answered
        ≡ []
          ++ map
              (short_group (printer_uri labels "0.0.0.0" 8631))
              (keep (is_wanted "labels" (request 10 [])) one_job.jobs))
unfolding crate-IsFaithful
handle_get_jobs-lists_example =
    handle_get_jobs-lists env server "labels" printer (request 10 []) crate-IsFaithful every

-- The start of a request: an attribute "a" with the value 120, and the end of the group.
abbrev wire : List ℕ
wire = 2 ∷ 0 ∷ 0 ∷ 5 ∷ 0 ∷ 0 ∷ 0 ∷ 7 ∷ 1 ∷ 71 ∷ 0 ∷ 1 ∷ 97 ∷ 0 ∷ 1 ∷ 120 ∷ 3 ∷ []

abbrev charset : WireAttr
charset = record { tag = 71; name = bytes_of "attributes-charset"; value = bytes_of "utf-8" }

abbrev language : WireAttr
language = record { tag = 72; name = bytes_of "attributes-natural-language"; value = bytes_of "en" }

charset-IsAttr : IsAttr charset
charset-IsAttr = record {
  is_value = omega arith;
  name_fits = omega arith;
  value_fits = omega arith;
}

language-IsAttr : IsAttr language
language-IsAttr = record {
  is_value = omega arith;
  name_fits = omega arith;
  value_fits = omega arith;
}

abbrev header : List ℕ
header = 2 ∷ 0 ∷ 0 ∷ 2 ∷ 0 ∷ 0 ∷ 0 ∷ 1 ∷ []

operation_attributes_well_ordered_lem_example :
    operation_attributes_well_ordered
      (header ++ 1 ∷ (encode_all (charset ∷ language ∷ []) ++ 3 ∷ []))
    ≡ is_ordered (some (take 2 (names_of (charset ∷ language ∷ []))))
operation_attributes_well_ordered_lem_example =
    operation_attributes_well_ordered_lem header [] (charset ∷ language ∷ []) 3 refl
      (charset-IsAttr, (language-IsAttr, tt)) (omega arith)

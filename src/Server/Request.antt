-- ===== src/Server/Request.antt =====
-- src/server.rs: what the handler reads from a parsed request. A group's attributes are visited in the order
-- of its hash map, and the first that fits decides.
pub mod JobUri
use ipp_printer_app.Base.{
  Bool, List, Option, String, [], all, any, false, if◌then◌else◌, is_nil, keep, leb, max, none, ok,
  set, some, true, ℕ, ◌&&◌, ◌++◌, ◌=ˢ◌, ◌||◌, ◌∷◌,
}
use ipp_printer_app.Base.Int.{as_u32, negsuc, pos}
use ipp_printer_app.Ipp.{
  IppCrate, IppValue, keyword, mime_media_type, uri, name_without_language, integer, enum, boolean,
  DelimiterTag, operation_attributes, Attr, Group, Request, contains_name,
}
use ipp_printer_app.Job.{JobId}
use ipp_printer_app.Texts.{chars, after_last, parse_chars}

abbrev pub first_some {ℓ κ} : {A : Type ℓ} {B : Type κ} → (A → Option B) → List A → Option B
first_some f [] = none
first_some f (x ∷ xs) = elim (f x) [ some b ↦ some b | none ↦ first_some f xs ]

-- The nested loops over groups and attributes.
abbrev pub all_attrs : List Group → List Attr
all_attrs [] = []
all_attrs (g ∷ gs) = g.attributes ++ all_attrs gs

abbrev pub search_attrs {ℓ} : {B : Type ℓ} → (Attr → Option B) → Request → Option B
search_attrs f req = first_some f (all_attrs req.groups)

abbrev pub or_default {ℓ} : {A : Type ℓ} → Option A → A → A
or_default none d = d
or_default (some a) d = a

abbrev pub is_operation : DelimiterTag → Bool
is_operation operation_attributes = true
is_operation _ = false

abbrev pub has_name : String → Attr → Bool
has_name name a = a.name =ˢ name

unfoldable pub has_operation_attr : Request → String → Bool
has_operation_attr req name =
    any (λ (g : Group). any (has_name name) g.attributes)
      (keep (λ (g : Group). is_operation g.tag) req.groups)

-- `s.rsplit('/').next().and_then(|s| s.parse().ok())`
unfoldable pub job_id_of_uri : String → Option JobId
job_id_of_uri s = parse_chars 4294967295 (after_last b'/' (chars s))

-- The two tests of the loop body; an outer `some` is a `return`.
abbrev pub uri_job_id : IppValue → Option (Option JobId)
uri_job_id (uri s) = some (job_id_of_uri s)
uri_job_id _ = none

abbrev pub integer_job_id : IppValue → Option (Option JobId)
integer_job_id (integer n) = some (some (as_u32 n))
integer_job_id _ = none

unfoldable pub job_id_of_attr : Attr → Option (Option JobId)
job_id_of_attr a =
    if a.name =ˢ "job-id"
    then integer_job_id a.value
    else if a.name =ˢ "job-uri"
    then uri_job_id a.value
    else none

unfoldable pub extract_job_id : Request → Option JobId
extract_job_id req = or_default (search_attrs job_id_of_attr req) none

abbrev pub quality_of_value : IppValue → Option ℕ
quality_of_value (enum (pos n)) = if leb 3 n && leb n 5 then some n else none
quality_of_value _ = none

unfoldable pub extract_print_quality : Request → Option ℕ
extract_print_quality =
    search_attrs (λ a. if a.name =ˢ "print-quality" then quality_of_value a.value else none)

-- `(*n).max(1) as u32`
abbrev pub copies_of_value : IppValue → Option ℕ
copies_of_value (integer (pos n)) = some (max n 1)
copies_of_value (integer (negsuc n)) = some 1
copies_of_value _ = none

unfoldable pub extract_copies : Request → ℕ
extract_copies req =
    or_default
      (search_attrs (λ a. if a.name =ˢ "copies" then copies_of_value a.value else none) req) 0

abbrev pub mime_of_value : IppValue → Option String
mime_of_value (mime_media_type s) = some s
mime_of_value _ = none

unfoldable pub extract_document_format : Request → String
extract_document_format req =
    or_default
      (search_attrs (λ a. if a.name =ˢ "document-format" then mime_of_value a.value else none) req)
      "application/octet-stream"

abbrev pub keyword_of_value : IppValue → Option String
keyword_of_value (keyword k) = some k
keyword_of_value _ = none

abbrev pub filter_keywords : List IppValue → List String
filter_keywords [] = []
filter_keywords (v ∷ vs) = elim (keyword_of_value v) [
  | some k ↦ k ∷ filter_keywords vs
  | none ↦ filter_keywords vs
]

module _ (crate : IppCrate) where
  unfoldable pub extract_requested_attributes : Request → Option (List String)
  extract_requested_attributes = search_attrs (λ a.
      if a.name =ˢ "requested-attributes"
      then some (filter_keywords (crate.elements a.value))
      else none)

  unfoldable pub extract_identify_actions : Request → List String
  extract_identify_actions req =
      or_default
        (search_attrs
          (λ a.
            if a.name =ˢ "identify-actions"
            then some (filter_keywords (crate.elements a.value))
            else none)
          req)
        []

-- `default` empty stands for everything.
unfoldable pub effective_filter : Option (List String) → List String → Option (List String)
effective_filter none default = if is_nil default then none else some default
effective_filter (some set) default =
    if is_nil set || contains_name "all" set then none else some set

abbrev pub user_of_value : IppValue → Option String
user_of_value (name_without_language s) = some s
user_of_value _ = none

unfoldable pub requesting_user : Request → String
requesting_user req =
    or_default
      (search_attrs (λ a. if a.name =ˢ "requesting-user-name" then user_of_value a.value else none)
        req)
      "anonymous"

abbrev pub boolean_of_value : IppValue → Option Bool
boolean_of_value (boolean b) = some b
boolean_of_value _ = none

unfoldable pub my_jobs_flag : Request → Bool
my_jobs_flag req =
    or_default
      (search_attrs (λ a. if a.name =ˢ "my-jobs" then boolean_of_value a.value else none) req) false

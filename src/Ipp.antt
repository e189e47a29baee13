-- ===== src/Ipp.antt =====
-- The vocabulary of the `ipp` crate that src/server.rs and src/attributes.rs use: its values, groups,
-- requests and responses as data, and its functions as fields of `IppCrate`, an argument of what calls them.
use ipp_printer_app.Base.{Bool, List, Option, Result, String, [], ok, ℕ, ◌∷◌, ◌≡◌, any, ◌=ˢ◌}
use ipp_printer_app.Base.Int.{ℤ}

mutual
  pub data IppValue : Type 0 where
    keyword mime_media_type uri charset natural_language : String → IppValue
    text_without_language name_without_language octet_string : String → IppValue
    integer enum : ℤ → IppValue
    boolean : Bool → IppValue
    range_of_integer : ℤ → ℤ → IppValue
    resolution : ℤ → ℤ → ℕ → IppValue
    date_time : ℕ → ℕ → ℕ → ℕ → ℕ → ℕ → IppValue
    collection : Members → IppValue
    array : Values → IppValue
    other : ℕ → IppValue

  pub data Values : Type 0 where
    nil : Values
    cons : IppValue → Values → Values

  -- The members of a collection, by name.
  pub data Members : Type 0 where
    end : Members
    member : String → IppValue → Members → Members

abbrev pub values : List IppValue → Values
values [] = nil
values (v ∷ vs) = cons v (values vs)

pub data DelimiterTag : Type 0 where
  operation_attributes job_attributes printer_attributes : DelimiterTag
  other_tag : ℕ → DelimiterTag

pub record Attr : Type 0 where
  pub name : String
  pub value : IppValue

-- A group's attributes in the order in which its hash map yields them, which is not that of the wire.
pub record Group : Type 0 where
  pub tag : DelimiterTag
  pub attributes : List Attr

pub data IppStatus : Type 0 where
  successful_ok client_error_bad_request client_error_not_possible client_error_not_found :
      IppStatus
  server_error_version_not_supported : IppStatus

-- The operations that the handler matches on; the crate's enumeration has more.
pub data Operation : Type 0 where
  print_job validate_job create_job send_document cancel_job : Operation
  get_job_attributes get_jobs get_printer_attributes : Operation
  other_operation : ℕ → Operation

pub record Request : Type 0 where
  pub version : ℕ
  pub op_code : ℕ
  pub request_id : ℕ
  pub groups : List Group
  pub payload : Result String (List ℕ)  -- what `read_to_end` gives

pub record Response : Type 0 where
  pub version : ℕ
  pub status : IppStatus
  pub request_id : ℕ
  pub groups : List Group

abbrev pub attr : String → IppValue → Attr
attr name value = record { name = name; value = value }

-- A set of names as a list; only membership and emptiness are asked of it.
abbrev pub contains_name : String → List String → Bool
contains_name name ns = any (λ n. n =ˢ name) ns

pub record IppCrate : Type 0 where
  -- `IppParser::parse` on the bytes of a request.
  pub parse : List ℕ → Result String Request
  -- `IppRequestResponse::new_response`.
  pub new_response : ℕ → IppStatus → ℕ → Result String Response
  -- `IppAttributes::add`.
  pub add : DelimiterTag → Attr → List Group → List Group
  -- `Operation::from_u16`.
  pub from_u16 : ℕ → Option Operation
  -- `{op:?}`.
  pub debug_operation : Operation → String
  -- `IppRequestResponse::to_bytes`.
  pub to_bytes : Response → List ℕ
  -- Whether `IppName::try_from` takes the text.
  pub name_fits : String → Bool
  -- `IppValue::into_iter`.
  pub elements : IppValue → List IppValue

-- What the crate documents of `new_response`: it succeeds, with the header that it is given.
pub record IsFaithful (crate : IppCrate) : Type 0 where
  pub fresh : ℕ → ℕ → List Group
  pub makes :
      (version : ℕ) (status : IppStatus) (request_id : ℕ)
      → crate.new_response version status request_id
        ≡ ok (record {
          version = version;
          status = status;
          request_id = request_id;
          groups = fresh version request_id;
        })

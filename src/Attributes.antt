-- ===== src/Attributes.antt =====
-- src/attributes.rs: the responses. The texts that the code converts with `expect` are taken to fit the
-- type that they are converted to, and an attribute list is added one by one.
pub mod Clock
pub mod Jobs
pub mod Media
pub mod Printer
pub mod Filter
use ipp_printer_app.Base.{
  Bool, List, Option, Result, String, [], all, err, false, if◌then◌else◌, is_nil, keep, map, none,
  ok, set, some, true, ℕ, ◌||◌, ◌∷◌,
}
use ipp_printer_app.Base.Int.{pos}
use ipp_printer_app.Ipp.{
  DelimiterTag, printer_attributes, Attr, Group, Response, IppCrate, IppValue, keyword, enum, array,
  values, contains_name,
}

-- `Array` of `kw`.
abbrev pub keywords : List String → IppValue
keywords items = array (values (map keyword items))

-- `Array` of `Enum`.
abbrev pub enums : List ℕ → IppValue
enums codes = array (values (map (λ c. enum (pos c)) codes))

module _ (crate : IppCrate) where
  unfoldable pub add_all : DelimiterTag → List Attr → List Group → List Group
  add_all tag [] gs = gs
  add_all tag (a ∷ attrs) gs = add_all tag attrs (crate.add tag a gs)

-- `let mut resp = new_response(..)?` and what is then added to it.
abbrev pub and_add : Result String Response → (List Group → List Group) → Result String Response
and_add (err e) f = err e
and_add (ok r) f = ok (record r { groups = f r.groups })

abbrev pub is_printer : DelimiterTag → Bool
is_printer printer_attributes = true
is_printer _ = false

abbrev pub retain_named : List String → Group → Group
retain_named set g =
    if is_printer g.tag
    then record g { attributes = keep (λ (a : Attr). contains_name a.name set) g.attributes }
    else g

unfoldable pub filter_requested : Option (List String) → List Group → List Group
filter_requested none gs = gs
filter_requested (some set) gs =
    if is_nil set || contains_name "all" set then gs else map (retain_named set) gs

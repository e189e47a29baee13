-- ===== src/Attributes/Filter.antt =====
-- src/attributes.rs, `filter_requested`: which attributes of a response are left.
use ipp_printer_app.Base.{
  true, false, ◌∙◌, ◌||◌, Bool, is_nil, Bool-cases, List, Option, String, [], ap, arith, eq_iff,
  eq_refl, find, if◌then◌else◌, inl, inr, keep, map, none, not, refl, set, some, ◌++◌, ◌=ˢ◌, ◌∷◌,
  ◌≡◌,
}
use ipp_printer_app.Ipp.{Attr, Group, contains_name}
use ipp_printer_app.Attributes.{is_printer, retain_named, filter_requested}

-- The attributes of the printer groups.
abbrev pub printer_attrs : List Group → List Attr
printer_attrs [] = []
printer_attrs (g ∷ gs) =
    if is_printer g.tag then g.attributes ++ printer_attrs gs else printer_attrs gs

abbrev pub other_groups : List Group → List Group
other_groups gs = keep (λ (g : Group). not (is_printer g.tag)) gs

abbrev pub lookup : String → List Attr → Option Attr
lookup name attrs = find (λ (a : Attr). a.name =ˢ name) attrs

abbrev orelse : Option Attr → Option Attr → Option Attr
orelse none b = b
orelse (some a) b = some a

lookup-append :
    (name : String) (xs ys : List Attr)
    → lookup name (xs ++ ys) ≡ orelse (lookup name xs) (lookup name ys)
lookup-append name [] ys = refl
lookup-append name (a ∷ xs) ys = ground (arith, lookup-append name xs ys)

split :
    (c : Bool) (x y : Option Attr)
    → orelse (if c then x else none) (if c then y else none) ≡ (if c then orelse x y else none)
split true x y = refl
split false x y = refl

module _ (set : List String) (name : String) where
  lookup-keep :
      (attrs : List Attr)
      → lookup name (keep (λ (a : Attr). contains_name a.name set) attrs)
        ≡ (if contains_name name set then lookup name attrs else none)
  lookup-keep [] = ground arith
  lookup-keep (a ∷ attrs) = elim (Bool-cases (a.name =ˢ name)) [
    | inl hit ↦ rw ((eq_iff a.name name).0 hit) (ground (arith, eq_refl name, lookup-keep attrs))
    | inr miss ↦ rw miss (ground (arith, miss, lookup-keep attrs))
  ]

  lookup-retain :
      (gs : List Group)
      → lookup name (printer_attrs (map (retain_named set) gs))
        ≡ (if contains_name name set then lookup name (printer_attrs gs) else none)
  lookup-retain [] = ground arith
  lookup-retain (g ∷ gs) = elim (Bool-cases (is_printer g.tag)) [
    | inl printer ↦
        rw
          (
            printer,
            printer,
            lookup-append name (keep (λ (a : Attr). contains_name a.name set) g.attributes)
                (printer_attrs (map (retain_named set) gs)),
            lookup-append name g.attributes (printer_attrs gs),
            lookup-keep g.attributes,
            lookup-retain gs,
          )
          (split (contains_name name set) _ _)
    | inr other ↦ rw (other, other) (lookup-retain gs)
  ]

other_groups-retain :
    (set : List String) (gs : List Group)
    → other_groups (map (retain_named set) gs) ≡ other_groups gs
other_groups-retain set [] = refl
other_groups-retain set (g ∷ gs) = elim (Bool-cases (is_printer g.tag)) [
  | inl printer ↦ rw (printer, printer) (other_groups-retain set gs)
  | inr other ↦ rw (other, other) (ap (λ t. g ∷ t) (other_groups-retain set gs))
]

-- After the filter with a set of names, an attribute is found in the printer groups exactly if it was there and is
-- named by the set, where a set that is empty or has "all" names every attribute; and the other groups are as
-- they were.
pub lookup-filter_requested :
    (set : List String) (name : String) (gs : List Group)
    → (lookup name (printer_attrs (filter_requested (some set) gs)) ≡ (
        if is_nil set || (contains_name "all" set || contains_name name set)
        then lookup name (printer_attrs gs)
        else none))
      × (other_groups (filter_requested (some set) gs) ≡ other_groups gs)
unfolding filter_requested
lookup-filter_requested set name gs = elim (Bool-cases (is_nil set || contains_name "all" set)) [
  | inl every ↦ rw every (ground (arith, every), refl)
  | inr some_names ↦
      rw some_names
        (lookup-retain set name gs ∙ ground (arith, some_names), other_groups-retain set gs)
]

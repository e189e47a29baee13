-- ===== src/Server/Wire/Accept.antt =====
-- src/server.rs, `operation_attributes_well_ordered`: which requests pass, by the attributes that they encode.
use ipp_printer_app.Base.{
  All, Bool, List, Option, [], ap, arith, false, get_or, if◌then◌else◌, is_nil, keep, length,
  length-append, ltb, map, not, refl, some, suc, sym, take, true, zero, ℕ, ◌&&◌, ◌++◌, ◌+◌, ◌<◌,
  ◌==◌, ◌∙◌, ◌∷◌, ◌≡◌, ◌≤◌,
}
use mathlib.Core.List.{append_assoc}
use ipp_printer_app.Server.Wire.{
  first_names, is_ordered, operation_attributes_well_ordered, push_name,
}
use ipp_printer_app.Server.Wire.Encoded.{
  IsAttr, WireAttr, body, encode, encode_all, first_names-attr, get_or-append, u16_bytes,
}

-- What the loop collects: the names that are not empty, until there are two.
abbrev pub collect : List (List ℕ) → List WireAttr → List (List ℕ)
collect names [] = names
collect names (a ∷ as') =
    if ltb (length names) 2 then collect (push_name (length a.name) a.name names) as' else names

-- The encoded attribute and what follows, in the two groupings of the proofs.
grouped :
    (a : WireAttr) (more : List ℕ)
    → encode a ++ more
      ≡ (a.tag ∷ u16_bytes (length a.name) ++ a.name)
        ++ (u16_bytes (length a.value) ++ a.value ++ more)
grouped a more =
    append_assoc (a.tag ∷ u16_bytes (length a.name) ++ a.name)
      (u16_bytes (length a.value) ++ a.value) more

length-encode : (a : WireAttr) → length (encode a) ≡ 5 + length a.name + length a.value
length-encode a = omega (
  arith,
  length-append (a.tag ∷ u16_bytes (length a.name) ++ a.name)
      (u16_bytes (length a.value) ++ a.value),
)

-- From any attribute on, the loop collects the names of the rest of the group.
first_names-collect :
    (as' : List WireAttr) (pre rest : List ℕ) (stop n : ℕ) (names : List (List ℕ))
    → All IsAttr as'
    → stop ≤ 15
    → length as' < n
    → first_names n (pre ++ (encode_all as' ++ stop ∷ rest)) (length pre) names
      ≡ some (collect names as')
unfolding first_names
first_names-collect as' pre rest stop zero names attrs ends fuel = absurd (omega arith)
first_names-collect [] pre rest stop (suc n) names attrs ends fuel =
    ground (arith, get_or-append pre (stop ∷ rest) (length pre) 0 0)
first_names-collect (a ∷ as') pre rest stop (suc n) names attrs ends fuel =
    let more : List ℕ = encode_all as' ++ stop ∷ rest in
    let regroup : pre ++ ((encode a ++ encode_all as') ++ stop ∷ rest) ≡ body pre more a attrs.0 =
      ap (λ t. pre ++ t)
        (append_assoc (encode a) (encode_all as') (stop ∷ rest) ∙ grouped a more) in
    let behind : body pre more a attrs.0 ≡ (pre ++ encode a) ++ more =
      ap (λ t. pre ++ t) (sym (grouped a more)) ∙ sym (append_assoc pre (encode a) more) in
    let index : length pre + 3 + length a.name + 2 + length a.value ≡ length (pre ++ encode a) =
      omega (arith, length-append pre (encode a), length-encode a) in
    let later =
      first_names-collect as' (pre ++ encode a) rest stop n (push_name (length a.name) a.name names)
        attrs.1 ends (omega arith) in
    ap (λ b. first_names (suc n) b (length pre) names) regroup
    ∙ first_names-attr pre more a attrs.0 n names
    ∙ pick (ltb (length names) 2) names (
        ap
          (λ b.
            first_names n b (length pre + 3 + length a.name + 2 + length a.value)
              (push_name (length a.name) a.name names))
          behind
        ∙ ap
            (λ i.
              first_names n ((pre ++ encode a) ++ more) i (push_name (length a.name) a.name names))
            index
        ∙ later)
  where
    pick :
        (c : Bool) (z : List (List ℕ)) {x : Option (List (List ℕ))} {y : List (List ℕ)}
        → x ≡ some y
        → (if c then x else some z) ≡ some (if c then y else z)
    pick true z e = e
    pick false z e = refl

-- The names of the attributes, additional values left out.
abbrev pub has_name : List ℕ → Bool
has_name name = not (is_nil name)

abbrev pub names_of : List WireAttr → List (List ℕ)
names_of as' = keep has_name (map (λ a. a.name) as')

push_named :
    (c : ℕ) (cs : List ℕ) (names : List (List ℕ))
    → push_name (length (c ∷ cs)) (c ∷ cs) names ≡ names ++ (c ∷ cs) ∷ []
push_named c cs names = ground arith

collect-two : (x y : List ℕ) (as' : List WireAttr) → collect (x ∷ y ∷ []) as' ≡ x ∷ y ∷ []
collect-two x y [] = refl
collect-two x y (a ∷ as') = refl

collect-one : (x : List ℕ) (as' : List WireAttr) → collect (x ∷ []) as' ≡ x ∷ take 1 (names_of as')
collect-one x [] = refl
collect-one x (a ∷ as') = go a.name (collect-one x as')
  where
    go :
        (name : List ℕ)
        → collect (x ∷ []) as' ≡ x ∷ take 1 (names_of as')
        → collect (push_name (length name) name (x ∷ [])) as'
          ≡ x ∷ take 1 (keep has_name (name ∷ map (λ b. b.name) as'))
    go [] e = e
    go (c ∷ cs) e =
        ap (λ names. collect names as') (push_named c cs (x ∷ [])) ∙ collect-two x (c ∷ cs) as'

collect-none : (as' : List WireAttr) → collect [] as' ≡ take 2 (names_of as')
collect-none [] = refl
collect-none (a ∷ as') = go a.name (collect-none as')
  where
    go :
        (name : List ℕ)
        → collect [] as' ≡ take 2 (names_of as')
        → collect (push_name (length name) name []) as'
          ≡ take 2 (keep has_name (name ∷ map (λ b. b.name) as'))
    go [] e = e
    go (c ∷ cs) e = ap (λ names. collect names as') (push_named c cs []) ∙ collect-one (c ∷ cs) as'

length-encode_all : (as' : List WireAttr) → length as' ≤ length (encode_all as')
length-encode_all [] = omega arith
length-encode_all (a ∷ as') =
    omega (arith, length-append (encode a) (encode_all as'), length-encode a, length-encode_all as')

-- A request with a header of eight bytes and an operation group, in which each attribute has a value tag and lengths
-- that two bytes hold, and after which another delimiter comes, passes the check exactly if the first two names
-- of the group, additional values left out, are `attributes-charset` and `attributes-natural-language`.
pub operation_attributes_well_ordered_lem :
    (header rest : List ℕ) (as' : List WireAttr) (stop : ℕ)
    → length header ≡ 8
    → All IsAttr as'
    → stop ≤ 15
    → operation_attributes_well_ordered (header ++ 1 ∷ (encode_all as' ++ stop ∷ rest))
      ≡ is_ordered (some (take 2 (names_of as')))
unfolding operation_attributes_well_ordered
operation_attributes_well_ordered_lem header rest as' stop eight attrs ends =
    let group : List ℕ = encode_all as' ++ stop ∷ rest in
    let whole : List ℕ = header ++ 1 ∷ group in
    let pre : List ℕ = header ++ 1 ∷ [] in
    let split : whole ≡ pre ++ group = sym (append_assoc header (1 ∷ []) group) in
    let nine : 9 ≡ length pre = omega (arith, length-append header (1 ∷ []), eight) in
    let long : length as' < length whole = omega (
      arith,
      length-append header (1 ∷ group),
      length-append (encode_all as') (stop ∷ rest),
      length-encode_all as',
    ) in
    let found : first_names (length whole) whole 9 [] ≡ some (take 2 (names_of as')) =
      ap (λ b. first_names (length whole) b 9 []) split
      ∙ ap (λ i. first_names (length whole) (pre ++ group) i []) nine
      ∙ first_names-collect as' pre rest stop (length whole) [] attrs ends long
      ∙ ap (λ names. some names) (collect-none as') in
    let opens : get_or whole 8 0 ≡ 1 =
      get_or-append header (1 ∷ group) 8 0 0 (omega (arith, eight)) in
    let enough : ltb 8 (length whole) ≡ true =
      ground (arith, length-append header (1 ∷ group), eight) in
    ap (λ b. b && (get_or whole 8 0 == 1 && is_ordered (first_names (length whole) whole 9 [])))
      enough
    ∙ ap (λ b. (b == 1) && is_ordered (first_names (length whole) whole 9 [])) opens
    ∙ ap is_ordered found

-- ===== src/Server/Wire/Encoded.antt =====
-- src/server.rs, `operation_attributes_well_ordered`: a round of the loop on an attribute that a request encodes.
use ipp_printer_app.Base.{
  List, Option, [], ap, arith, drop, get_or, if◌then◌else◌, leb, length, length-append, ltb, none,
  not, refl, some, suc, sym, take, zero, ℕ, ◌%◌, ◌&&◌, ◌++◌, ◌+◌, ◌/◌, ◌<◌, ◌∙◌, ◌∷◌, ◌≡◌,
}
use mathlib.Core.List.{append_assoc}
use ipp_printer_app.Server.Wire.{be_u16, first_names, push_name, slice}

-- An attribute as a request encodes it; an additional value has an empty name.
pub record WireAttr : Type 0 where
  pub tag : ℕ
  pub name : List ℕ
  pub value : List ℕ

-- Two bytes, the higher first.
abbrev pub u16_bytes : ℕ → List ℕ
u16_bytes n = n / 256 ∷ n % 256 ∷ []

abbrev pub encode : WireAttr → List ℕ
encode a = (a.tag ∷ u16_bytes (length a.name) ++ a.name) ++ (u16_bytes (length a.value) ++ a.value)

abbrev pub encode_all : List WireAttr → List ℕ
encode_all [] = []
encode_all (a ∷ as') = encode a ++ encode_all as'

-- A value tag, and lengths that two bytes hold.
pub record IsAttr (a : WireAttr) : Type 0 where
  pub is_value : 15 < a.tag
  pub name_fits : length a.name < 65536
  pub value_fits : length a.value < 65536

module _ {ℓ} {A : Type ℓ} where
  pub get_or-append :
      (xs ys : List A) (i k : ℕ) (d : A) → i ≡ length xs + k → get_or (xs ++ ys) i d ≡ get_or ys k d
  get_or-append [] ys i k d e = ap (λ j. get_or ys j d) (let same : i ≡ k = omega arith in same)
  get_or-append (x ∷ xs) ys zero k d e = absurd (omega arith)
  get_or-append (x ∷ xs) ys (suc i) k d e = get_or-append xs ys i k d (omega arith)

  drop-append : (xs ys : List A) (i : ℕ) → i ≡ length xs → drop i (xs ++ ys) ≡ ys
  drop-append [] ys i e = let none_gone : i ≡ 0 = omega arith in rw none_gone
  drop-append (x ∷ xs) ys zero e = absurd (omega arith)
  drop-append (x ∷ xs) ys (suc i) e = drop-append xs ys i (omega arith)

  take-append : (xs ys : List A) → take (length xs) (xs ++ ys) ≡ xs
  take-append [] ys = refl
  take-append (x ∷ xs) ys = ap (λ t. x ∷ t) (take-append xs ys)

-- A round of the loop whose two lengths and name have been read.
abbrev round : ℕ → List ℕ → ℕ → List (List ℕ) → ℕ → ℕ → List ℕ → Option (List (List ℕ))
unfolding first_names
round n body i names name_len value_len name =
    let value_at = i + 3 + name_len in
    let rest = first_names n body (value_at + 2 + value_len) (push_name name_len name names) in
    if not (ltb i (length body) && ltb (length names) 2)
    then some names
    else if leb (get_or body i 0) 15
    then some names
    else if ltb (length body) (i + 3)
    then none
    else if ltb (length body) value_at
    then none
    else if ltb (length body) (value_at + 2)
    then none
    else rest

module _ (pre more : List ℕ) (a : WireAttr) (attr : IsAttr a) where
  abbrev pub value_part : List ℕ
  value_part = u16_bytes (length a.value) ++ a.value ++ more

  abbrev pub name_part : List ℕ
  name_part = a.tag ∷ u16_bytes (length a.name) ++ a.name

  abbrev pub body : List ℕ
  body = pre ++ (name_part ++ value_part)

  head_length : length name_part ≡ 3 + length a.name
  head_length = omega arith

  first_length : be_u16 body (length pre + 1) ≡ length a.name
  first_length =
      let high = get_or-append pre (name_part ++ value_part) (length pre + 1) 1 0 refl in
      let low =
        get_or-append pre (name_part ++ value_part) (length pre + 1 + 1) 2 0 (omega arith) in
      rw (high, low) (omega arith)

  second_length : be_u16 body (length pre + 3 + length a.name) ≡ length a.value
  second_length =
      let at_name = length a.name in
      let high =
        get_or-append pre (name_part ++ value_part) (length pre + 3 + at_name) (3 + at_name) 0
          (omega arith) in
      let low =
        get_or-append pre (name_part ++ value_part) (length pre + 3 + at_name + 1) (3 + at_name + 1)
          0 (omega arith) in
      let high' = get_or-append name_part value_part (3 + at_name) 0 0 (omega arith) in
      let low' = get_or-append name_part value_part (3 + at_name + 1) 1 0 (omega arith) in
      rw (high ∙ high', low ∙ low') (omega arith)

  name_slice : slice body (length pre + 3) (length a.name) ≡ a.name
  name_slice =
      let head : List ℕ = pre ++ a.tag ∷ u16_bytes (length a.name) in
      let split : body ≡ head ++ (a.name ++ value_part) =
        sym (append_assoc pre (a.tag ∷ u16_bytes (length a.name)) (a.name ++ value_part)) in
      ap (λ b. take (length a.name) (drop (length pre + 3) b)) split
      ∙ ap (take (length a.name)) (
          drop-append head (a.name ++ value_part) (length pre + 3)
            (sym (length-append pre (a.tag ∷ u16_bytes (length a.name)))))
      ∙ take-append a.name value_part

  length-body : length body ≡ length pre + 5 + length a.name + length a.value + length more
  length-body = omega (
    arith,
    length-append pre (name_part ++ value_part),
    length-append a.name value_part,
    length-append a.value more,
  )

  tag_at : get_or body (length pre) 0 ≡ a.tag
  tag_at = get_or-append pre (name_part ++ value_part) (length pre) 0 0 (omega arith)

  -- A round reads the attribute at its index, and goes on behind it unless two names have been read.
  pub first_names-attr :
      (n : ℕ) (names : List (List ℕ))
      → first_names (suc n) body (length pre) names ≡ (
          if ltb (length names) 2
          then first_names n body
              (length pre + 3 + length a.name + 2 + length a.value)
              (push_name (length a.name) a.name names)
          else some names)
  unfolding first_names round
  first_names-attr n names =
      ap
        (λ len.
          round n body (length pre) names len (be_u16 body (length pre + 3 + len))
            (slice body (length pre + 3) len))
        first_length
      ∙ ap
          (λ len.
            round n body (length pre) names (length a.name) len
              (slice body (length pre + 3) (length a.name)))
          second_length
      ∙ ap (round n body (length pre) names (length a.name) (length a.value)) name_slice
      ∙ read
    where
      read : round n body (length pre) names (length a.name) (length a.value) a.name ≡ (
          if ltb (length names) 2
          then first_names n body
              (length pre + 3 + length a.name + 2 + length a.value)
              (push_name (length a.name) a.name names)
          else some names)
      read = ground (arith, tag_at, length-body, attr.is_value)

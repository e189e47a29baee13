-- ===== src/Server/Wire.antt =====
-- src/server.rs, `operation_attributes_well_ordered`: the first two attribute names of a request's bytes.
pub mod Rounds
pub mod Encoded
pub mod Accept
use ipp_printer_app.Base.{
  Bool, List, Option, String, [], code, drop, false, get_or, if◌then◌else◌, leb, length, ltb, map,
  none, not, some, suc, take, true, zero, ℕ, ◌&&◌, ◌*◌, ◌++◌, ◌+◌, ◌==◌, ◌∷◌,
}
use ipp_printer_app.Texts.{chars}

-- `u16::from_be_bytes` at an index, read only within bounds.
abbrev pub be_u16 : List ℕ → ℕ → ℕ
be_u16 body i = get_or body i 0 * 256 + get_or body (i + 1) 0

abbrev pub slice : List ℕ → ℕ → ℕ → List ℕ
slice body i len = take len (drop i body)

abbrev pub push_name : ℕ → List ℕ → List (List ℕ) → List (List ℕ)
push_name name_len name names = if name_len == 0 then names else names ++ name ∷ []

-- The `while` loop from index `i`, with the names read so far; `none` is a `return false`. A round moves `i` by
-- five at least, so that as many rounds as there are bytes are enough.
unfoldable pub first_names : ℕ → List ℕ → ℕ → List (List ℕ) → Option (List (List ℕ))
first_names zero body i names = none
first_names (suc fuel) body i names =
    let name_len = be_u16 body (i + 1) in
    let value_at = i + 3 + name_len in
    let next = value_at + 2 + be_u16 body value_at in
    let rest =
      first_names fuel body next (push_name name_len (slice body (i + 3) name_len) names) in
    if not (ltb i (length body) && ltb (length names) 2)
    then some names
    else if leb (get_or body i 0) 15
    then some names
    else if ltb (length body) (i + 3)
    then none
    else if ltb (length body) value_at
    then none
    else if ltb (length body) (value_at + 2)
    then none
    else rest

abbrev pub bytes_of : String → List ℕ
bytes_of s = map code (chars s)

abbrev pub same_bytes : List ℕ → List ℕ → Bool
same_bytes [] [] = true
same_bytes (a ∷ as') (b ∷ bs) = a == b && same_bytes as' bs
same_bytes _ _ = false

abbrev pub is_ordered : Option (List (List ℕ)) → Bool
is_ordered (some (a ∷ b ∷ rest)) =
    same_bytes a (bytes_of "attributes-charset")
    && same_bytes b (bytes_of "attributes-natural-language")
is_ordered _ = false

unfoldable pub operation_attributes_well_ordered : List ℕ → Bool
unfolding first_names
operation_attributes_well_ordered body =
    ltb 8 (length body)
    && (get_or body 8 0 == 1 && is_ordered (first_names (length body) body 9 []))

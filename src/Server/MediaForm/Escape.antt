-- ===== src/Server/MediaForm/Escape.antt =====
-- src/server.rs, `esc`: the replacements one after the other, against one pass over the text.
use ipp_printer_app.Base.{
  Bool, Bool-cases, Char, List, String, [], any, ap, arith, false, if◌then◌else◌, inl, inr, refl,
  sym, ℕ, ◌++◌, ◌||◌, ◌∙◌, ◌∷◌, ◌≡◌,
}
use mathlib.Core.List.{append_assoc}
use ipp_printer_app.Texts.{chars, is_char}
use ipp_printer_app.Server.MediaForm.{replace, esc_chars}

-- The text for one character.
abbrev pub entity : Char → List Char
entity c =
    if is_char b'&' c
    then chars "&amp;"
    else if is_char b'<' c
    then chars "&lt;"
    else if is_char b'>' c
    then chars "&gt;"
    else if is_char b'"' c
    then chars "&quot;"
    else c ∷ []

abbrev pub escape : List Char → List Char
escape [] = []
escape (c ∷ cs) = entity c ++ escape cs

replace-append :
    (c : ℕ) (by : String) (xs ys : List Char)
    → replace c by (xs ++ ys) ≡ replace c by xs ++ replace c by ys
unfolding replace
replace-append c by [] ys = refl
replace-append c by (x ∷ xs) ys = elim (Bool-cases (is_char c x)) [
  | inl hit ↦
      rw (hit, replace-append c by xs ys)
        (sym (append_assoc (chars by) (replace c by xs) (replace c by ys)))
  | inr miss ↦ rw (miss, replace-append c by xs ys)
]

esc_chars-append : (xs ys : List Char) → esc_chars (xs ++ ys) ≡ esc_chars xs ++ esc_chars ys
unfolding esc_chars
esc_chars-append xs ys =
    let amp = λ (cs : List Char). replace b'&' "&amp;" cs in
    let lt = λ (cs : List Char). replace b'<' "&lt;" cs in
    let gt = λ (cs : List Char). replace b'>' "&gt;" cs in
    let quot = λ (cs : List Char). replace b'"' "&quot;" cs in
    ap (λ cs. quot (gt (lt cs))) (replace-append b'&' "&amp;" xs ys)
    ∙ ap (λ cs. quot (gt cs)) (replace-append b'<' "&lt;" (amp xs) (amp ys))
    ∙ ap quot (replace-append b'>' "&gt;" (lt (amp xs)) (lt (amp ys)))
    ∙ replace-append b'"' "&quot;" (gt (lt (amp xs))) (gt (lt (amp ys)))

esc_chars-one : (c : Char) → esc_chars (c ∷ []) ≡ entity c
unfolding esc_chars replace
esc_chars-one c = elim (Bool-cases (is_char b'&' c)) [
  | inl amp ↦ rw amp
  | inr no_amp ↦ elim (Bool-cases (is_char b'<' c)) [
    | inl lt ↦ rw (no_amp, lt)
    | inr no_lt ↦ elim (Bool-cases (is_char b'>' c)) [
      | inl gt ↦ rw (no_amp, no_lt, gt)
      | inr no_gt ↦ elim (Bool-cases (is_char b'"' c)) [
        | inl quot ↦ rw (no_amp, no_lt, no_gt, quot)
        | inr no_quot ↦ rw (no_amp, no_lt, no_gt, no_quot)
      ]
    ]
  ]
]

-- The four replacements, one after the other, escape each character once.
esc_chars-escape : (cs : List Char) → esc_chars cs ≡ escape cs
unfolding esc_chars replace
esc_chars-escape [] = refl
esc_chars-escape (c ∷ cs) =
    esc_chars-append (c ∷ []) cs
    ∙ ap (λ out. out ++ esc_chars cs) (esc_chars-one c)
    ∙ ap (λ out. entity c ++ out) (esc_chars-escape cs)

-- The characters that could end a text or an attribute.
abbrev pub is_markup : Char → Bool
is_markup c = is_char b'<' c || (is_char b'>' c || is_char b'"' c)

any-append : (p : Char → Bool) (xs ys : List Char) → any p (xs ++ ys) ≡ (any p xs || any p ys)
any-append p [] ys = refl
any-append p (x ∷ xs) ys = ground (arith, any-append p xs ys)

any-entity : (c : Char) → any is_markup (entity c) ≡ false
any-entity c = ground arith

any-escape : (cs : List Char) → any is_markup (escape cs) ≡ false
any-escape [] = refl
any-escape (c ∷ cs) =
    any-append is_markup (entity c) (escape cs)
    ∙ ap (λ b. b || any is_markup (escape cs)) (any-entity c)
    ∙ any-escape cs

-- The escaped text is what one pass makes of it, each `&`, `<`, `>` and `"` by its entity and any other character by
-- itself, and has no `<`, `>` or `"` left.
pub esc_chars_lem :
    (cs : List Char) → (esc_chars cs ≡ escape cs) × (any is_markup (esc_chars cs) ≡ false)
esc_chars_lem cs = (esc_chars-escape cs, ap (any is_markup) (esc_chars-escape cs) ∙ any-escape cs)

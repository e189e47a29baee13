-- ===== src/Server/Startup/Slug.antt =====
-- src/server.rs, `printer_name_from_uri`: the names that are proposed for the queues.
use ipp_printer_app.Base.{
  ==_iff, All, Bool, Bool-cases, Char, List, String, [], ap, arith, code, false, if◌then◌else◌, inl,
  inr, is_nil, keep, map, not, refl, suc, true, zero, ℕ, ◌&&◌, ◌++◌, ◌-◌, ◌<◌, ◌==◌, ◌||◌, ◌∙◌, ◌∷◌,
  ◌≡◌,
}
use Prim.Native.String.{char_at}
use text.Mathlib.TextEquality.{Char-path}
use ipp_printer_app.Texts.{chars, is_digit, snoc, split_from, trim_end, trim_matches, trim_start}
use ipp_printer_app.Server.Startup.{
  collapsed, is_ascii_alphanumeric, is_gap, is_lower, is_piece, is_upper, join, or_printer,
  slug_char, underscore,
}

abbrev pub is_word : Char → Bool
is_word c = is_digit c || is_lower c

-- Runs of lower-case letters and digits with one `_` between two of them; `after_gap` says that a run must begin.
abbrev pub well_spaced : Bool → List Char → Bool
well_spaced after_gap [] = not after_gap
well_spaced after_gap (c ∷ cs) =
    if is_gap c then not after_gap && well_spaced true cs else is_word c && well_spaced false cs

abbrev pub IsSlug : String → Type 0
IsSlug name = well_spaced true (chars name) ≡ true

abbrev letters_are_lower : ℕ → Bool
letters_are_lower zero = true
letters_are_lower (suc k) = is_lower (char_at "abcdefghijklmnopqrstuvwxyz" k) && letters_are_lower k

letters_are_lower-below :
    (n k : ℕ)
    → letters_are_lower n ≡ true
    → k < n
    → is_lower (char_at "abcdefghijklmnopqrstuvwxyz" k) ≡ true
letters_are_lower-below zero k h below = absurd (omega arith)
letters_are_lower-below (suc n) k h below = elim (Bool-cases (n == k)) [
  | inl same ↦ rw (← (==_iff n k).0 same) (ground arith)
  | inr apart ↦ letters_are_lower-below n k (ground arith) (ground arith)
]

abbrev is_sluggish : Char → Bool
is_sluggish c = is_gap c || is_word c

lower-is_sluggish : (c : Char) → is_lower c ≡ true → is_sluggish c ≡ true
lower-is_sluggish c h = ground arith

is_sluggish-slug_char : (c : Char) → is_sluggish (slug_char c) ≡ true
is_sluggish-slug_char c = elim (Bool-cases (is_upper c)) [
  | inl upper ↦
      let letter : Char = char_at "abcdefghijklmnopqrstuvwxyz" (code c - b'A') in
      let same : slug_char c ≡ letter = ground arith in
      ap is_sluggish same
      ∙ lower-is_sluggish letter (letters_are_lower-below 26 (code c - b'A') refl (ground arith))
  | inr not_upper ↦ elim (Bool-cases (is_ascii_alphanumeric c)) [
    | inl kept ↦ let same : slug_char c ≡ c = ground arith in ap is_sluggish same ∙ ground arith
    | inr gap ↦ let same : slug_char c ≡ underscore = ground arith in ap is_sluggish same
  ]
]

pub slug_char-word : (c : Char) → is_word c ≡ true → slug_char c ≡ c
slug_char-word c h = ground arith

pub slug_char-gap : (c : Char) → is_gap c ≡ true → slug_char c ≡ c
slug_char-gap c h =
    let same : underscore ≡ c = Char-path underscore c (ground arith) in ground (arith, same)

abbrev Sluggish : List Char → Type 0
Sluggish cs = All (λ c. is_sluggish c ≡ true) cs

abbrev Words : List Char → Type 0
Words cs = All (λ c. is_word c ≡ true) cs

map-Sluggish : (cs : List Char) → Sluggish (map slug_char cs)
map-Sluggish [] = tt
map-Sluggish (c ∷ cs) = (is_sluggish-slug_char c, map-Sluggish cs)

trim_start-Sluggish : (cs : List Char) → Sluggish cs → Sluggish (trim_start is_gap cs)
unfolding trim_start
trim_start-Sluggish [] h = tt
trim_start-Sluggish (c ∷ cs) h = elim (Bool-cases (is_gap c)) [
  | inl gap ↦ rw gap (trim_start-Sluggish cs h.1)
  | inr word ↦ rw word h
]

trim_end-Sluggish : (cs : List Char) → Sluggish cs → Sluggish (trim_end is_gap cs)
unfolding trim_end
trim_end-Sluggish [] h = tt
trim_end-Sluggish (c ∷ cs) h = elim (Bool-cases (is_gap c && is_nil (trim_end is_gap cs))) [
  | inl gone ↦ rw gone tt
  | inr stays ↦ rw stays (h.0, trim_end-Sluggish cs h.1)
]

snoc-Words : (cs : List Char) (c : Char) → Words cs → is_word c ≡ true → Words (snoc cs c)
snoc-Words [] c h k = (k, tt)
snoc-Words (d ∷ cs) c h k = (h.0, snoc-Words cs c h.1 k)

split_from-Words :
    (cs cur : List Char) → Words cur → Sluggish cs → All Words (split_from b'_' cur cs)
unfolding split_from
split_from-Words [] cur h k = (h, tt)
split_from-Words (c ∷ cs) cur h k = elim (Bool-cases (is_gap c)) [
  | inl gap ↦ rw gap (h, split_from-Words cs [] tt k.1)
  | inr word ↦
      rw word (split_from-Words cs (snoc cur c) (snoc-Words cur c h (ground (arith, k.0))) k.1)
]

-- A run of words, then a gap and what follows it; the run is not empty where it must begin.
well_spaced-run :
    (b : Bool) (w rest : List Char)
    → Words w
    → (b && is_nil w) ≡ false
    → well_spaced b (w ++ underscore ∷ rest) ≡ well_spaced true rest
well_spaced-run true [] rest h k = cc k
well_spaced-run false [] rest h k = refl
well_spaced-run b (c ∷ w) rest h k =
    let word : is_gap c ≡ false = ground (arith, h.0) in
    rw (word, h.0) (well_spaced-run false w rest h.1 refl)

well_spaced-end :
    (b : Bool) (w : List Char) → Words w → (b && is_nil w) ≡ false → well_spaced b w ≡ true
well_spaced-end true [] h k = cc k
well_spaced-end false [] h k = refl
well_spaced-end b (c ∷ w) h k =
    let word : is_gap c ≡ false = ground (arith, h.0) in
    rw (word, h.0) (well_spaced-end false w h.1 refl)

abbrev IsPiece : List Char → Type 0
IsPiece w = Words w × (is_nil w ≡ false)

keep-IsPiece : (pieces : List (List Char)) → All Words pieces → All IsPiece (keep is_piece pieces)
keep-IsPiece [] h = tt
keep-IsPiece ([] ∷ pieces) h = keep-IsPiece pieces h.1
keep-IsPiece ((c ∷ cs) ∷ pieces) h = ((h.0, refl), keep-IsPiece pieces h.1)

well_spaced-join :
    (w : List Char) (ws : List (List Char))
    → IsPiece w
    → All IsPiece ws
    → well_spaced true (join (w ∷ ws)) ≡ true
unfolding join
well_spaced-join w [] h k = well_spaced-end true w h.0 h.1
well_spaced-join w (v ∷ ws) h k =
    well_spaced-run true w (join (v ∷ ws)) h.0 h.1 ∙ well_spaced-join v ws k.0 k.1

pub or_printer-spaced : (cs : List Char) → well_spaced true cs ≡ true → or_printer cs ≡ cs
or_printer-spaced [] h = cc h
or_printer-spaced (c ∷ cs) h = refl

or_printer-join :
    (pieces : List (List Char))
    → All IsPiece pieces
    → well_spaced true (or_printer (join pieces)) ≡ true
unfolding join
or_printer-join [] h = refl
or_printer-join (w ∷ ws) h =
    let spaced = well_spaced-join w ws h.0 h.1 in
    ap (well_spaced true) (or_printer-spaced (join (w ∷ ws)) spaced) ∙ spaced

pub collapsed-IsSlug :
    (source : List Char) → well_spaced true (or_printer (collapsed source)) ≡ true
unfolding collapsed trim_matches
collapsed-IsSlug source = or_printer-join _ (
    keep-IsPiece _ (
      split_from-Words _ [] tt (trim_end-Sluggish _ (trim_start-Sluggish _ (map-Sluggish source)))))

-- ===== src/Server/Startup/QueueName.antt =====
-- src/server.rs, `printer_name_from_uri`: that a well-formed name goes through the sanitiser unchanged.
use ipp_printer_app.Base.{
  Bool, Bool-cases, Char, List, String, [], ap, arith, eq_iff, false, if◌then◌else◌, inl, inr,
  is_nil, keep, map, refl, sym, true, ◌++◌, ◌=ˢ◌, ◌∙◌, ◌∷◌, ◌≡◌,
}
use text.Mathlib.TextEquality.{Char-path}
use mathlib.Core.List.{append-nil}
use ipp_printer_app.Texts.{chars, from_chars, snoc, split_from, trim_end, trim_matches, trim_start}
use ipp_printer_app.Texts.Chars.{chars-from_chars, from_chars-chars, snoc-append}
use ipp_printer_app.Server.Startup.{
  collapsed, is_gap, is_piece, join, or_printer, printer_name_from_uri, slug_char, underscore,
}
use ipp_printer_app.Server.Startup.Slug.{
  well_spaced, IsSlug, slug_char-word, slug_char-gap, or_printer-spaced, collapsed-IsSlug,
}

-- What follows a slug's first character, or the slug itself, is kept by each step.
map-spaced : (b : Bool) (cs : List Char) → well_spaced b cs ≡ true → map slug_char cs ≡ cs
map-spaced b [] h = refl
map-spaced b (c ∷ cs) h = elim (Bool-cases (is_gap c)) [
  | inl gap ↦
      ap (λ d. d ∷ map slug_char cs) (slug_char-gap c gap)
      ∙ ap (λ ds. c ∷ ds) (map-spaced true cs (ground (arith, h, gap)))
  | inr word ↦
      ap (λ d. d ∷ map slug_char cs) (slug_char-word c (ground (arith, h, word)))
      ∙ ap (λ ds. c ∷ ds) (map-spaced false cs (ground (arith, h, word)))
]

trim_start-spaced : (cs : List Char) → well_spaced true cs ≡ true → trim_start is_gap cs ≡ cs
unfolding trim_start
trim_start-spaced [] h = refl
trim_start-spaced (c ∷ cs) h = let word : is_gap c ≡ false = ground (arith, h) in rw word

nonempty-spaced : (cs : List Char) → well_spaced true cs ≡ true → is_nil cs ≡ false
nonempty-spaced [] h = sym h
nonempty-spaced (c ∷ cs) h = refl

trim_end-spaced : (b : Bool) (cs : List Char) → well_spaced b cs ≡ true → trim_end is_gap cs ≡ cs
unfolding trim_end
trim_end-spaced b [] h = refl
trim_end-spaced b (c ∷ cs) h = elim (Bool-cases (is_gap c)) [
  | inl gap ↦
      let rest : well_spaced true cs ≡ true = ground (arith, h, gap) in
      rw (trim_end-spaced true cs rest, gap, nonempty-spaced cs rest)
  | inr word ↦
      let rest : well_spaced false cs ≡ true = ground (arith, h, word) in
      rw (word, trim_end-spaced false cs rest)
]

join-nonempty :
    (w cs : List Char) (pieces : List (List Char))
    → join pieces ≡ cs
    → is_nil cs ≡ false
    → join (w ∷ pieces) ≡ w ++ underscore ∷ cs
unfolding join
join-nonempty w cs [] same full =
    let empty : is_nil cs ≡ true = ap is_nil (sym same) in cc (sym empty ∙ full)
join-nonempty w cs (v ∷ pieces) same full = ap (λ t. w ++ underscore ∷ t) same

keep_first :
    (w : List Char) (pieces : List (List Char))
    → is_nil w ≡ false
    → keep is_piece (w ∷ pieces) ≡ w ∷ keep is_piece pieces
keep_first [] pieces h = cc h
keep_first (c ∷ w) pieces h = refl

is_nil-snoc : (cur : List Char) (c : Char) → is_nil (snoc cur c) ≡ false
is_nil-snoc [] c = refl
is_nil-snoc (d ∷ cur) c = refl

join-split_from :
    (cs cur : List Char)
    → well_spaced (is_nil cur) cs ≡ true
    → join (keep is_piece (split_from b'_' cur cs)) ≡ cur ++ cs
unfolding split_from join
join-split_from [] [] h = refl
join-split_from [] (d ∷ cur) h = sym (append-nil (d ∷ cur))
join-split_from (c ∷ cs) cur h = elim (Bool-cases (is_gap c)) [
  | inl gap ↦
      let full : is_nil cur ≡ false = ground (arith, h, gap) in
      let rest : well_spaced true cs ≡ true = ground (arith, h, gap) in
      rw gap (
        ap join (keep_first cur (split_from b'_' [] cs) full)
        ∙ join-nonempty cur cs _ (join-split_from cs [] rest) (nonempty-spaced cs rest)
        ∙ ap (λ d. cur ++ d ∷ cs) (Char-path underscore c (ground arith)))
  | inr word ↦
      let rest : well_spaced false cs ≡ true = ground (arith, h, word) in
      rw word (
        join-split_from cs (snoc cur c) (ap (λ b. well_spaced b cs) (is_nil-snoc cur c) ∙ rest)
        ∙ snoc-append cur c cs)
]

collapsed-spaced : (cs : List Char) → well_spaced true cs ≡ true → collapsed cs ≡ cs
unfolding collapsed trim_matches
collapsed-spaced cs h =
    ap (λ ds. join (keep is_piece (split_from b'_' [] (trim_end is_gap (trim_start is_gap ds)))))
      (map-spaced true cs h)
    ∙ ap (λ ds. join (keep is_piece (split_from b'_' [] (trim_end is_gap ds))))
        (trim_start-spaced cs h)
    ∙ ap (λ ds. join (keep is_piece (split_from b'_' [] ds))) (trim_end-spaced true cs h)
    ∙ join-split_from cs [] h

printer_name_from_uri-IsSlug : (uri info : String) → IsSlug (printer_name_from_uri uri info)
unfolding printer_name_from_uri
printer_name_from_uri-IsSlug uri info =
    let source : List Char = chars (if info =ˢ "" then uri else info) in
    ap (well_spaced true) (chars-from_chars (or_printer (collapsed source)))
    ∙ collapsed-IsSlug source

-- A name of that form is proposed unchanged.
printer_name_from_uri-fixed :
    (uri name : String) → IsSlug name → printer_name_from_uri uri name ≡ name
unfolding printer_name_from_uri
printer_name_from_uri-fixed uri name h = elim (Bool-cases (name =ˢ "")) [
  | inl empty ↦
      let bad : well_spaced true [] ≡ true =
        ap (λ n. well_spaced true (chars n)) (sym ((eq_iff name "").0 empty)) ∙ h in
      cc bad
  | inr full ↦ rw full (
      ap (λ cs. from_chars (or_printer cs)) (collapsed-spaced (chars name) h)
      ∙ ap from_chars (or_printer-spaced (chars name) h)
      ∙ from_chars-chars name)
]

-- Whatever the device reports, the name that is proposed for its queue is not empty and is made of runs of
-- lower-case letters and digits with one `_` between two of them; and such a name stays the same when it goes
-- through the sanitiser again.
pub printer_name_from_uri_lem :
    (uri info other : String)
    → let name = printer_name_from_uri uri info in
      IsSlug name × (printer_name_from_uri other name ≡ name)
printer_name_from_uri_lem uri info other =
    let slug = printer_name_from_uri-IsSlug uri info in
    (slug, printer_name_from_uri-fixed other (printer_name_from_uri uri info) slug)

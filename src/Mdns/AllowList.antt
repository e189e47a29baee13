-- ===== src/Mdns/AllowList.antt =====
-- src/mdns.rs, `mdns_ifaces`: the list of interfaces in `IPP_PRINTER_APP_MDNS_IFACES`.
use ipp_printer_app.Base.{
  All, Bool, Char, List, String, [], all, any, ap, arith, false, not, refl, sym, true, ◌&&◌, ◌++◌,
  ◌=ˢ◌, ◌||◌, ◌∙◌, ◌∷◌, ◌≡◌,
}
use mathlib.Core.List.{append-nil}
use ipp_printer_app.Texts.{
  from_chars, is_char, is_whitespace, snoc, split_from, trim, trim_end, trim_matches, trim_start,
}
use ipp_printer_app.Texts.Chars.{chars-from_chars, snoc-append}
use Prim.Native.String.{char_at}
use ipp_printer_app.Mdns.{is_listed}

-- A name, and the blanks around it.
pub record Entry : Type 0 where
  pub before : List Char
  pub name : List Char
  pub after : List Char

abbrev pub is_plain : Char → Bool
is_plain c = not (is_char b',' c) && not (is_whitespace c)

-- Blanks around a name without blanks and commas.
pub record IsEntry (e : Entry) : Type 0 where
  pub before : all is_whitespace e.before ≡ true
  pub name : all is_plain e.name ≡ true
  pub after : all is_whitespace e.after ≡ true

abbrev pub text_of : Entry → List Char
text_of e = e.before ++ (e.name ++ e.after)

abbrev pub comma : Char
comma = char_at "," 0

-- The entries separated by commas.
abbrev pub written : Entry → List Entry → List Char
written e [] = text_of e
written e (f ∷ fs) = text_of e ++ comma ∷ written f fs

abbrev is_piece_char : Char → Bool
is_piece_char c = not (is_char b',' c)

all-append {ℓ} :
    {A : Type ℓ} (p : A → Bool) (xs ys : List A)
    → all p xs ≡ true
    → all p ys ≡ true
    → all p (xs ++ ys) ≡ true
all-append p [] ys h k = k
all-append p (x ∷ xs) ys h k = ground (arith, all-append p xs ys)

plain-no_comma : (cs : List Char) → all is_plain cs ≡ true → all is_piece_char cs ≡ true
plain-no_comma [] h = refl
plain-no_comma (c ∷ cs) h = ground (arith, plain-no_comma cs)

blank-no_comma : (cs : List Char) → all is_whitespace cs ≡ true → all is_piece_char cs ≡ true
blank-no_comma [] h = refl
blank-no_comma (c ∷ cs) h = ground (arith, blank-no_comma cs)

text_of-no_comma : (e : Entry) → IsEntry e → all is_piece_char (text_of e) ≡ true
text_of-no_comma e v = all-append is_piece_char e.before _ (blank-no_comma e.before v.before) (
    all-append is_piece_char e.name e.after (plain-no_comma e.name v.name)
      (blank-no_comma e.after v.after))

trim_start-blank :
    (bs cs : List Char)
    → all is_whitespace bs ≡ true
    → trim_start is_whitespace (bs ++ cs) ≡ trim_start is_whitespace cs
unfolding trim_start
trim_start-blank [] cs h = refl
trim_start-blank (b ∷ bs) cs h =
    let blank : is_whitespace b ≡ true = ground (arith, h) in
    rw blank (trim_start-blank bs cs (ground (arith, h)))

trim_end-blank : (bs : List Char) → all is_whitespace bs ≡ true → trim_end is_whitespace bs ≡ []
unfolding trim_end
trim_end-blank [] h = refl
trim_end-blank (b ∷ bs) h =
    let blank : is_whitespace b ≡ true = ground (arith, h) in
    rw (trim_end-blank bs (ground (arith, h)), blank) refl

trim_end-name :
    (cs bs : List Char)
    → all is_plain cs ≡ true
    → all is_whitespace bs ≡ true
    → trim_end is_whitespace (cs ++ bs) ≡ cs
unfolding trim_end
trim_end-name [] bs h k = trim_end-blank bs k
trim_end-name (c ∷ cs) bs h k =
    let solid : is_whitespace c ≡ false = ground (arith, h) in
    rw (trim_end-name cs bs (ground (arith, h)) k, solid) refl

trim_start-name :
    (cs bs : List Char)
    → all is_plain cs ≡ true
    → all is_whitespace bs ≡ true
    → trim_end is_whitespace (trim_start is_whitespace (cs ++ bs)) ≡ cs
unfolding trim_start trim_end
trim_start-name [] [] h k = refl
trim_start-name [] (b ∷ bs) h k =
    let blank : is_whitespace b ≡ true = ground (arith, k) in
    rw blank (trim_start-name [] bs refl (ground (arith, k)))
trim_start-name (c ∷ cs) bs h k =
    let solid : is_whitespace c ≡ false = ground (arith, h) in
    rw solid (trim_end-name (c ∷ cs) bs h k)

trim-text_of : (e : Entry) → IsEntry e → trim (text_of e) ≡ e.name
unfolding trim trim_matches
trim-text_of e v =
    ap (trim_end is_whitespace) (trim_start-blank e.before (e.name ++ e.after) v.before)
    ∙ trim_start-name e.name e.after v.name v.after

split_from-last :
    (cs cur : List Char) → all is_piece_char cs ≡ true → split_from b',' cur cs ≡ (cur ++ cs) ∷ []
unfolding split_from
split_from-last [] cur h = ap (λ t. t ∷ []) (sym (append-nil cur))
split_from-last (c ∷ cs) cur h =
    let other : is_char b',' c ≡ false = ground (arith, h) in
    rw other (
      split_from-last cs (snoc cur c) (ground (arith, h)) ∙ ap (λ t. t ∷ []) (snoc-append cur c cs))

split_from-comma :
    (cs cur rest : List Char)
    → all is_piece_char cs ≡ true
    → split_from b',' cur (cs ++ comma ∷ rest) ≡ (cur ++ cs) ∷ split_from b',' [] rest
unfolding split_from
split_from-comma [] cur rest h = ap (λ t. t ∷ split_from b',' [] rest) (sym (append-nil cur))
split_from-comma (c ∷ cs) cur rest h =
    let other : is_char b',' c ≡ false = ground (arith, h) in
    rw other (
      split_from-comma cs (snoc cur c) rest (ground (arith, h))
      ∙ ap (λ t. t ∷ split_from b',' [] rest) (snoc-append cur c cs))

abbrev pub texts : Entry → List Entry → List (List Char)
texts e [] = text_of e ∷ []
texts e (f ∷ fs) = text_of e ∷ texts f fs

split_from-written :
    (e : Entry) (es : List Entry)
    → IsEntry e
    → All IsEntry es
    → split_from b',' [] (written e es) ≡ texts e es
split_from-written e [] v vs = split_from-last (text_of e) [] (text_of-no_comma e v)
split_from-written e (f ∷ fs) v vs =
    split_from-comma (text_of e) [] (written f fs) (text_of-no_comma e v)
    ∙ ap (λ t. text_of e ∷ t) (split_from-written f fs vs.0 vs.1)

any-texts :
    (name : String) (e : Entry) (es : List Entry)
    → IsEntry e
    → All IsEntry es
    → any (λ n. from_chars (trim n) =ˢ name) (texts e es)
      ≡ any (λ (x : Entry). from_chars x.name =ˢ name) (e ∷ es)
any-texts name e [] v vs = rw (trim-text_of e v) refl
any-texts name e (f ∷ fs) v vs =
    ap (λ t. from_chars t =ˢ name || any (λ n. from_chars (trim n) =ˢ name) (texts f fs))
      (trim-text_of e v)
    ∙ ap (λ b. from_chars e.name =ˢ name || b) (any-texts name f fs vs.0 vs.1)

-- A list of at least one entry, separated by commas, each entry a name without blanks and commas between any blanks:
-- the list names an interface exactly if the name of one of its entries is that of the interface.
pub is_listed-written :
    (name : String) (e : Entry) (es : List Entry)
    → IsEntry e
    → All IsEntry es
    → is_listed (from_chars (written e es)) name
      ≡ any (λ (x : Entry). from_chars x.name =ˢ name) (e ∷ es)
unfolding is_listed
is_listed-written name e es v vs =
    ap (λ cs. any (λ n. from_chars (trim n) =ˢ name) (split_from b',' [] cs))
      (chars-from_chars (written e es))
    ∙ ap (any (λ n. from_chars (trim n) =ˢ name)) (split_from-written e es v vs)
    ∙ any-texts name e es v vs

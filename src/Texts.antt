-- ===== src/Texts.antt =====
-- Texts as the code writes and reads them with the standard library: the pieces of a `format!`, numbers in
-- decimal, `rsplit`, `split`, `trim`, `parse`. Nothing here is a file of the repository by itself.
pub mod Decimal
pub mod Chars
use ipp_printer_app.Base.{
  Bool, Char, List, Option, String, any, code, if◌then◌else◌, leb, ltb, none, some, suc, zero, ℕ,
  ◌%◌, ◌&&◌, ◌*◌, ◌+◌, ◌-◌, ◌/◌, ◌==◌, ◌||◌, true, false, is_nil, drop, length,
}
use ipp_printer_app.Base.Int.{negsuc, pos, ℤ}
use mathlib.Core.List.{[], ◌∷◌}
use Prim.Native.String.{[] as nil, ◌∷◌ as ◌∷ˢ◌, ◌++◌ as ◌⧺◌, char_at}
use text.Mathlib.TextBridge.{of_list}

-- `chars()`.
abbrev pub chars : String → List Char
chars nil = []
chars (c ∷ˢ s) = c ∷ chars s

-- `collect::<String>()`.
abbrev pub from_chars : List Char → String
from_chars cs = of_list cs

-- Joins the pieces of a `format!`.
abbrev pub concat : List String → String
concat [] = ""
concat (s ∷ ss) = s ⧺ concat ss

abbrev pub is_char : ℕ → Char → Bool
is_char n c = code c == n

abbrev pub digit_char : ℕ → Char
digit_char d = char_at "0123456789" d

-- The decimal digits of `n` before `out`; the fuel bounds the number of digits.
unfoldable pub digits : ℕ → ℕ → List Char → List Char
digits zero n out = out
digits (suc fuel) n out =
    let more = digits fuel (n / 10) (digit_char (n % 10) ∷ out) in
    if ltb n 10 then digit_char n ∷ out else more

-- `{}` of an unsigned number below 10^20, which every `u16`, `u32` and `u64` is.
unfoldable pub show : ℕ → String
unfolding digits
show n = from_chars (digits 20 n [])

-- `{}` of an `i32`.
unfoldable pub show_ℤ : ℤ → String
unfolding show
show_ℤ (pos n) = show n
show_ℤ (negsuc n) = "-" ⧺ show (suc n)

abbrev pub is_digit : Char → Bool
is_digit c = leb b'0' (code c) && leb (code c) b'9'

-- The digits read so far are `acc`; a value above `limit` is an overflow.
unfoldable pub scan : ℕ → ℕ → List Char → Option ℕ
scan limit acc [] = some acc
scan limit acc (c ∷ cs) =
    let next = acc * 10 + (code c - b'0') in
    let rest = scan limit next cs in if is_digit c && leb next limit then rest else none

-- `str::parse` into an unsigned type with the greatest value `limit`: an optional `+`, then one or more digits.
unfoldable pub parse_chars : ℕ → List Char → Option ℕ
unfolding scan
parse_chars limit [] = none
parse_chars limit (c ∷ []) = if is_digit c then scan limit 0 (c ∷ []) else none
parse_chars limit (c ∷ d ∷ cs) =
    if is_char b'+' c then scan limit 0 (d ∷ cs) else scan limit 0 (c ∷ d ∷ cs)

unfoldable pub parse_u32 : String → Option ℕ
unfolding parse_chars
parse_u32 s = parse_chars 4294967295 (chars s)

-- What follows the last `c`, or everything if there is none: the first item of `rsplit(c)`.
unfoldable pub after_last : ℕ → List Char → List Char
after_last c [] = []
after_last c (x ∷ xs) =
    if any (is_char c) xs then after_last c xs else if is_char c x then xs else x ∷ xs

abbrev pub snoc : List Char → Char → List Char
snoc [] x = x ∷ []
snoc (y ∷ ys) x = y ∷ snoc ys x

-- The pieces between the `c`s: `split(c)`.
unfoldable pub split_from : ℕ → List Char → List Char → List (List Char)
split_from c cur [] = cur ∷ []
split_from c cur (x ∷ xs) =
    let closed = cur ∷ split_from c [] xs in
    let longer = split_from c (snoc cur x) xs in if is_char c x then closed else longer

-- `char::is_whitespace`: the property White_Space.
abbrev pub is_whitespace : Char → Bool
is_whitespace c =
    let n = code c in
    leb 9 n && leb n 13
    || (n == 32
        || (n == 133
            || (n == 160
                || (n == 5760
                    || (leb 8192 n && leb n 8202
                        || (n == 8232
                            || (n == 8233 || (n == 8239 || (n == 8287 || n == 12288)))))))))

module _ (p : Char → Bool) where
  -- `trim_start_matches(p)`.
  unfoldable pub trim_start : List Char → List Char
  trim_start [] = []
  trim_start (c ∷ cs) = if p c then trim_start cs else c ∷ cs

  -- `trim_end_matches(p)`.
  unfoldable pub trim_end : List Char → List Char
  trim_end [] = []
  trim_end (c ∷ cs) = let rest = trim_end cs in if p c && is_nil rest then [] else c ∷ rest

  -- `trim_matches(p)`.
  unfoldable pub trim_matches : List Char → List Char
  unfolding trim_start trim_end
  trim_matches cs = trim_end (trim_start cs)

-- `trim()`.
unfoldable pub trim : List Char → List Char
unfolding trim_matches
trim cs = trim_matches is_whitespace cs

abbrev pub same_char : Char → Char → Bool
same_char c d = code c == code d

-- `starts_with`.
unfoldable pub starts_with : List Char → List Char → Bool
starts_with [] cs = true
starts_with (p ∷ ps) [] = false
starts_with (p ∷ ps) (c ∷ cs) = same_char p c && starts_with ps cs

-- `strip_prefix(..).unwrap_or(..)`.
unfoldable pub strip_prefix_or_all : String → String → String
unfolding starts_with
strip_prefix_or_all prefix s =
    if starts_with (chars prefix) (chars s)
    then from_chars (drop (length (chars prefix)) (chars s))
    else s

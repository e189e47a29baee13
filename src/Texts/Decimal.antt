-- ===== src/Texts/Decimal.antt =====
-- Reading a printed number back.
use ipp_printer_app.Base.{
  false, any, ◌∙◌, ◌%◌, ◌/◌, inr, inl, Bool-cases, some, [], All, ltb, Char, List, arith, code,
  refl, suc, true, zero, ℕ, ◌*◌, ◌+◌, ◌-◌, ◌<◌, ◌^◌, ◌∷◌, ◌≡◌, ◌≤◌,
}
use native.Mathlib.Nat.{pow-suc}
use ipp_printer_app.Texts.{digit_char, digits, is_digit, scan, parse_chars, is_char}

digit-code : (d : ℕ) → d < 10 → code (digit_char d) ≡ b'0' + d
digit-code zero h = refl
digit-code (suc zero) h = refl
digit-code (suc (suc zero)) h = refl
digit-code (suc (suc (suc zero))) h = refl
digit-code (suc (suc (suc (suc zero)))) h = refl
digit-code (suc (suc (suc (suc (suc zero))))) h = refl
digit-code (suc (suc (suc (suc (suc (suc zero)))))) h = refl
digit-code (suc (suc (suc (suc (suc (suc (suc zero))))))) h = refl
digit-code (suc (suc (suc (suc (suc (suc (suc (suc zero)))))))) h = refl
digit-code (suc (suc (suc (suc (suc (suc (suc (suc (suc zero))))))))) h = refl
digit-code (suc (suc (suc (suc (suc (suc (suc (suc (suc (suc d)))))))))) h = absurd (omega arith)

scan-digit :
    (limit acc d v : ℕ) (cs : List Char)
    → d < 10
    → acc * 10 + d ≡ v
    → v ≤ limit
    → scan limit acc (digit_char d ∷ cs) ≡ scan limit v cs
unfolding scan
scan-digit limit acc d v cs small sum fits =
    let coded : code (digit_char d) ≡ b'0' + d = digit-code d small in
    let value : acc * 10 + (code (digit_char d) - b'0') ≡ v = omega arith in
    let digit : is_digit (digit_char d) ≡ true = ground arith in rw (digit, value) (ground arith)

-- With fuel for its digits, a number is read back from its digits whatever follows them.
scan-digits :
    (fuel limit n : ℕ) (out : List Char)
    → n < 10 ^ suc fuel
    → n ≤ limit
    → scan limit 0 (digits (suc fuel) n out) ≡ scan limit n out
unfolding digits
scan-digits zero limit n out small fits =
    let one : ltb n 10 ≡ true = ground arith in
    rw one (scan-digit limit 0 n n out (omega arith) (omega arith) fits)
scan-digits (suc fuel) limit n out small fits = elim (Bool-cases (ltb n 10)) [
  | inl one ↦ rw one (scan-digit limit 0 n n out (ground arith) (omega arith) fits)
  | inr more ↦
      let bound : n < 10 ^ suc fuel * 10 = omega (arith, pow-suc 10 (suc fuel)) in
      rw more (
        scan-digits fuel limit (n / 10) (digit_char (n % 10) ∷ out) (omega arith) (omega arith)
        ∙ scan-digit limit (n / 10) (n % 10) n out (omega arith) (omega arith) fits)
]

abbrev IsDigit : Char → Type 0
IsDigit c = is_digit c ≡ true

-- One or more digits.
abbrev IsNumber : List Char → Type 0
IsNumber [] = ⊥
IsNumber (c ∷ cs) = IsDigit c × All IsDigit cs

digit_char-IsDigit : (d : ℕ) → d < 10 → IsDigit (digit_char d)
digit_char-IsDigit d h = let coded : code (digit_char d) ≡ b'0' + d = digit-code d h in ground arith

pub digits-IsNumber :
    (fuel n : ℕ) (out : List Char) → All IsDigit out → IsNumber (digits (suc fuel) n out)
unfolding digits
digits-IsNumber zero n out h = elim (Bool-cases (ltb n 10)) [
  | inl one ↦ rw one (digit_char-IsDigit n (ground arith), h)
  | inr more ↦ rw more (digit_char-IsDigit (n % 10) (omega arith), h)
]
digits-IsNumber (suc fuel) n out h = elim (Bool-cases (ltb n 10)) [
  | inl one ↦ rw one (digit_char-IsDigit n (ground arith), h)
  | inr more ↦ rw more (
      digits-IsNumber fuel (n / 10) (digit_char (n % 10) ∷ out)
        (digit_char-IsDigit (n % 10) (omega arith), h))
]

parse_chars-IsNumber :
    (limit : ℕ) (cs : List Char) → IsNumber cs → parse_chars limit cs ≡ scan limit 0 cs
unfolding parse_chars
parse_chars-IsNumber limit [] h = absurd h
parse_chars-IsNumber limit (c ∷ []) h = rw (h.0)
parse_chars-IsNumber limit (c ∷ d ∷ cs) h =
    let digit : is_digit c ≡ true = h.0 in
    let unsigned : is_char b'+' c ≡ false = ground arith in rw unsigned

pub parse_chars-digits : (n : ℕ) → n < 4294967296 → parse_chars 4294967295 (digits 20 n []) ≡ some n
parse_chars-digits n small =
    parse_chars-IsNumber 4294967295 (digits 20 n []) (digits-IsNumber 19 n [] tt)
    ∙ scan-digits 19 4294967295 n [] (omega arith) (omega arith)
    ∙ unfold scan in refl

All-no_slash : (cs : List Char) → All IsDigit cs → any (is_char b'/') cs ≡ false
All-no_slash [] h = refl
All-no_slash (c ∷ cs) h =
    let digit : is_digit c ≡ true = h.0 in
    let other : is_char b'/' c ≡ false = ground arith in rw other (All-no_slash cs h.1)

IsNumber-no_slash : (cs : List Char) → IsNumber cs → any (is_char b'/') cs ≡ false
IsNumber-no_slash [] h = absurd h
IsNumber-no_slash (c ∷ cs) h = All-no_slash (c ∷ cs) h

-- `/` is no digit, so it does not stand in a number.
pub digits-no_slash : (n : ℕ) → any (is_char b'/') (digits 20 n []) ≡ false
digits-no_slash n = IsNumber-no_slash (digits 20 n []) (digits-IsNumber 19 n [] tt)

-- ===== src/Flags/Bits.antt =====
-- What `bit_and` with a mask is, one binary digit at a time: the mask of one flag reads that flag.
use Prim.Native.Nat.{bit_and, digits, bit_and-bitwise}
use native.Mathlib.Nat.{pow-suc}
use ipp_printer_app.Base.{
  ◌-◌, ℕ, zero, suc, ◌+◌, ◌-◌, ◌*◌, ◌/◌, ◌%◌, ◌^◌, ◌<◌, ap, sym, ◌≤◌, min, ◌≡◌, refl, ◌∙◌, arith,
}

-- The flags that `set` and `mask` share, worked out in `rounds` rounds.
abbrev common : ℕ → ℕ → ℕ → ℕ
common rounds set mask = digits (λ rest. 0) min rounds set mask

common-zero : (rounds mask : ℕ) → common rounds 0 mask ≡ 0
common-zero zero mask = refl
common-zero (suc rounds) mask = refl

-- One round more than enough is as good as enough.
common-suc :
    (rounds set mask : ℕ) → set ≤ rounds → common (suc rounds) set mask ≡ common rounds set mask
common-suc rounds zero mask enough = sym (common-zero rounds mask)
common-suc zero (suc set) mask enough = absurd (omega arith)
common-suc (suc rounds) (suc set) mask enough =
    let below : suc set / 2 ≤ rounds = omega arith in
    omega (arith, common-suc rounds (suc set / 2) (mask / 2) below)

common-least :
    (extra rounds set mask : ℕ)
    → rounds ≡ set + extra
    → common rounds set mask ≡ common set set mask
common-least zero rounds set mask split =
    let same : rounds ≡ set = omega arith in ap (λ n. common n set mask) same
common-least (suc extra) zero set mask split = absurd (omega arith)
common-least (suc extra) (suc rounds) set mask split =
    common-suc rounds set mask (omega arith) ∙ common-least extra rounds set mask (omega arith)

common-enough : (rounds set mask : ℕ) → set ≤ rounds → common rounds set mask ≡ common set set mask
common-enough rounds set mask enough = common-least (rounds - set) rounds set mask (omega arith)

none_common : (mask : ℕ) → bit_and 0 mask ≡ 0
none_common mask = bit_and-bitwise 0 mask ∙ common-zero 0 mask

-- The lowest digit apart from the others.
lowest_digit :
    (set mask : ℕ) → bit_and set mask ≡ min (set % 2) (mask % 2) + bit_and (set / 2) (mask / 2) * 2
lowest_digit zero mask = omega (arith, none_common (mask / 2), none_common mask)
lowest_digit (suc set) mask =
    let half : suc set / 2 ≤ set = omega arith in
    omega (
      arith,
      common-enough set (suc set / 2) (mask / 2) half,
      bit_and-bitwise (suc set / 2) (mask / 2),
      bit_and-bitwise (suc set) mask,
    )

no_mask : (bound set : ℕ) → set ≤ bound → bit_and set 0 ≡ 0
no_mask bound zero small = none_common 0
no_mask zero (suc set) small = absurd (omega arith)
no_mask (suc bound) (suc set) small =
    let rest : bit_and (suc set / 2) 0 ≡ 0 = no_mask bound (suc set / 2) (omega arith) in
    omega (arith, rest, lowest_digit (suc set) 0)

pub bit_and-one : (set : ℕ) → bit_and set 1 ≡ set % 2
bit_and-one set = omega (arith, no_mask (set / 2) (set / 2) (omega arith), lowest_digit set 1)

-- A mask without its lowest digit, and one with it.
pub bit_and_double : (set mask : ℕ) → bit_and set (mask * 2) ≡ bit_and (set / 2) mask * 2
bit_and_double set mask =
    let halved : mask * 2 / 2 ≡ mask = omega arith in
    lowest_digit set (mask * 2) ∙ rw halved (omega arith)

pub bit_and_odd : (set mask : ℕ) → bit_and set (mask * 2 + 1) ≡ bit_and (set / 2) mask * 2 + set % 2
bit_and_odd set mask =
    let halved : (mask * 2 + 1) / 2 ≡ mask = omega arith in
    lowest_digit set (mask * 2 + 1) ∙ rw halved (omega arith)

-- Digit `i` of `set` in base two.
abbrev pub bit : ℕ → ℕ → ℕ
bit set zero = set % 2
bit set (suc i) = bit (set / 2) i

pub bit-lt_two : (i set : ℕ) → bit set i < 2
bit-lt_two zero set = omega arith
bit-lt_two (suc i) set = bit-lt_two i (set / 2)

-- The mask of one flag reads that flag.
pub bit_and_pow : (i set : ℕ) → bit_and set (2 ^ i) ≡ bit set i * 2 ^ i
bit_and_pow zero set = bit_and-one set ∙ omega arith
bit_and_pow (suc i) set =
    rw (pow-suc 2 i)
      (bit_and_double set (2 ^ i) ∙ omega (arith, ap (λ t. t * 2) (bit_and_pow i (set / 2))))

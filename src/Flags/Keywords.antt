-- ===== src/Flags/Keywords.antt =====
-- What `ipp_keywords` and `is_recoverable` of src/flags.rs tell of a flag set.
use ipp_printer_app.Base.{
  not, ◌/◌, any, ℕ, zero, suc, ◌+◌, ◌*◌, ◌^◌, ◌<◌, ◌≡◌, refl, ◌∙◌, inl, inr, String, List, [], ◌∷◌,
  map, keep, All, arith, ◌=ˢ◌, ◌==◌, if◌then◌else◌, Bool-cases,
}
use Prim.Native.Nat.{bit_and}
use ipp_printer_app.Flags.{contains, keyword_table, ipp_keywords, recoverable_mask, is_recoverable}
use ipp_printer_app.Flags.Reason
use ipp_printer_app.Flags.Reason.{PrinterReason}
use native.Mathlib.Nat.{pow-suc}
use ipp_printer_app.Flags.Bits.{
  bit, bit_and_odd, bit_and_double, bit_and-one as bit_and_one, bit-lt_two, bit_and_pow,
}

abbrev Entry : Type 0
Entry = PrinterReason × String

-- The flag that a keyword names in a table, 0 for a word of no flag.
abbrev reason_in : List Entry → String → PrinterReason
reason_in [] k = 0
reason_in (e ∷ es) k = if e.1 =ˢ k then e.0 else reason_in es k

abbrev pub reason_of : String → PrinterReason
reason_of = reason_in keyword_table

-- Reads a list of keywords back, as a client does.
pub reasons_of : List String → PrinterReason
reasons_of [] = 0
reasons_of (k ∷ ks) = reason_of k + reasons_of ks

abbrev share : PrinterReason → PrinterReason → ℕ
share r b = if contains r b then b else 0

abbrev shares : PrinterReason → List Entry → ℕ
shares r [] = 0
shares r (e ∷ es) = share r e.0 + shares r es

abbrev IsNamed : Entry → Type 0
IsNamed e = reason_of e.1 ≡ e.0

reasons_of-keep :
    (r : PrinterReason) (es : List Entry)
    → All IsNamed es
    → reasons_of (map (λ e. e.1) (keep (λ (e : Entry). contains r e.0) es)) ≡ shares r es
unfolding reasons_of
reasons_of-keep r [] h = refl
reasons_of-keep r (e ∷ es) h = elim (Bool-cases (contains r e.0)) [
  | inl set ↦ rw set (omega (arith, h.0, reasons_of-keep r es h.1))
  | inr clear ↦ rw clear (omega (arith, reasons_of-keep r es h.1))
]

keyword_table-IsNamed : All IsNamed keyword_table
keyword_table-IsNamed = omega arith

-- A test for a whole mask selects the mask or nothing.
select_mask : (t m b : ℕ) → m ≡ t * b → t < 2 → (if m == b then b else 0) ≡ t * b
select_mask zero m b e h = ground arith
select_mask (suc zero) m b e h = ground arith
select_mask (suc (suc t)) m b e h = absurd (omega arith)

share-bit : (i r : ℕ) → share r (2 ^ i) ≡ bit r i * 2 ^ i
unfolding contains
share-bit i r = select_mask (bit r i) _ (2 ^ i) (bit_and_pow i r) (bit-lt_two i r)

shares-table : (r : PrinterReason) → r < 0x20000 → shares r keyword_table ≡ r
shares-table r h = omega (
  arith,
  share-bit 0 r,
  share-bit 1 r,
  share-bit 2 r,
  share-bit 3 r,
  share-bit 4 r,
  share-bit 5 r,
  share-bit 6 r,
  share-bit 7 r,
  share-bit 8 r,
  share-bit 9 r,
  share-bit 10 r,
  share-bit 11 r,
  share-bit 12 r,
  share-bit 13 r,
  share-bit 14 r,
  share-bit 15 r,
  share-bit 16 r,
)

-- For every flag set (a `u32` with no bit above the seventeen declared), the keywords read back
-- give the flag set: `ipp_keywords` reports each set flag, once, and no other.
pub reasons_of-ipp_keywords : (r : PrinterReason) → r < 0x20000 → reasons_of (ipp_keywords r) ≡ r
unfolding ipp_keywords
reasons_of-ipp_keywords r h = elim (Bool-cases (r == 0)) [
  | inl none_set ↦ rw none_set (unfold reasons_of in ground arith)
  | inr some_set ↦
      rw some_set (reasons_of-keep r keyword_table keyword_table-IsNamed ∙ shares-table r h)
]

one_bit : (t m b : ℕ) → 0 < b → m ≡ t * b → t < 2 → (m == b) ≡ not (m == 0)
one_bit zero m b p e h = ground arith
one_bit (suc zero) m b p e h = ground arith
one_bit (suc (suc t)) m b p e h = absurd (omega arith)

pow-pos : (i : ℕ) → 0 < 2 ^ i
pow-pos zero = omega arith
pow-pos (suc i) = rw (pow-suc 2 i) (omega (arith, pow-pos i))

-- The conditions that the documentation of `is_recoverable` lists.
abbrev pub clearable : List PrinterReason
clearable =
    Reason.offline ∷ Reason.media_jam ∷ Reason.media_empty ∷ Reason.media_needed
    ∷ Reason.input_tray_missing ∷ Reason.cover_open ∷ Reason.door_open ∷ Reason.marker_supply_empty
    ∷ Reason.toner_empty ∷ []

abbrev masked : PrinterReason → List PrinterReason → ℕ
masked r [] = 0
masked r (b ∷ bs) = bit_and r b + masked r bs

abbrev IsBit : PrinterReason → PrinterReason → Type 0
IsBit r b = contains r b ≡ not (bit_and r b == 0)

contains-IsBit : (i r : ℕ) → IsBit r (2 ^ i)
unfolding contains
contains-IsBit i r = one_bit (bit r i) _ (2 ^ i) (pow-pos i) (bit_and_pow i r) (bit-lt_two i r)

any-contains :
    (r : PrinterReason) (bs : List PrinterReason)
    → All (IsBit r) bs
    → any (contains r) bs ≡ not (masked r bs == 0)
any-contains r [] h = refl
any-contains r (b ∷ bs) h = rw (h.0, any-contains r bs h.1) (ground arith)

recoverable_sum : (r : ℕ) → bit_and r recoverable_mask ≡ masked r clearable
recoverable_sum r = omega (
  arith,
  bit_and_double (r) 22215,
  bit_and_odd (r / 2) 11107,
  bit_and_odd (r / 2 / 2) 5553,
  bit_and_odd (r / 2 / 2 / 2) 2776,
  bit_and_double (r / 2 / 2 / 2 / 2) 1388,
  bit_and_double (r / 2 / 2 / 2 / 2 / 2) 694,
  bit_and_double (r / 2 / 2 / 2 / 2 / 2 / 2) 347,
  bit_and_odd (r / 2 / 2 / 2 / 2 / 2 / 2 / 2) 173,
  bit_and_odd (r / 2 / 2 / 2 / 2 / 2 / 2 / 2 / 2) 86,
  bit_and_double (r / 2 / 2 / 2 / 2 / 2 / 2 / 2 / 2 / 2) 43,
  bit_and_odd (r / 2 / 2 / 2 / 2 / 2 / 2 / 2 / 2 / 2 / 2) 21,
  bit_and_odd (r / 2 / 2 / 2 / 2 / 2 / 2 / 2 / 2 / 2 / 2 / 2) 10,
  bit_and_double (r / 2 / 2 / 2 / 2 / 2 / 2 / 2 / 2 / 2 / 2 / 2 / 2) 5,
  bit_and_odd (r / 2 / 2 / 2 / 2 / 2 / 2 / 2 / 2 / 2 / 2 / 2 / 2 / 2) 2,
  bit_and_double (r / 2 / 2 / 2 / 2 / 2 / 2 / 2 / 2 / 2 / 2 / 2 / 2 / 2 / 2) 1,
  bit_and_one (r / 2 / 2 / 2 / 2 / 2 / 2 / 2 / 2 / 2 / 2 / 2 / 2 / 2 / 2 / 2),
  bit_and_pow 11 r,
  bit_and_pow 8 r,
  bit_and_pow 7 r,
  bit_and_pow 10 r,
  bit_and_pow 2 r,
  bit_and_pow 1 r,
  bit_and_pow 15 r,
  bit_and_pow 3 r,
  bit_and_pow 13 r,
)

-- A flag set is recoverable exactly when it contains one of the nine clearable conditions, whatever
-- other flags are set.
pub is_recoverable-any : (r : PrinterReason) → is_recoverable r ≡ any (contains r) clearable
unfolding is_recoverable
is_recoverable-any r = rw (
  any-contains r clearable (
    contains-IsBit 11 r,
    (
      contains-IsBit 8 r,
      (
        contains-IsBit 7 r,
        (
          contains-IsBit 10 r,
          (
            contains-IsBit 2 r,
            (
              contains-IsBit 1 r,
              (contains-IsBit 15 r, (contains-IsBit 3 r, (contains-IsBit 13 r, tt))),
            ),
          ),
        ),
      ),
    ),
  ),
  recoverable_sum r,
)

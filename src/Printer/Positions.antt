-- ===== src/Printer/Positions.antt =====
-- src/printer.rs: the two parallel lists of media when the entry of one name is taken out.
use ipp_printer_app.Base.{
  sym, ◌∙◌, refl, suc, inr, eq_iff, inl, arith, Bool-cases, List, Option, String, [], false,
  get_elem?, if◌then◌else◌, none, some, ℕ, ◌+◌, ◌=ˢ◌, ◌∷◌, ◌≡◌, ◌≢◌,
}
use ipp_printer_app.Base.Int.{ℤ}
use ipp_printer_app.Printer.{PrinterConfig, position, shift, remove_at, cut_at}

-- The size that goes with a name: the entry of `media_sizes` at the name's first position, if there is one.
abbrev pub size_at : Option ℕ → List (ℤ × ℤ) → Option (ℤ × ℤ)
size_at none sizes = none
size_at (some i) sizes = get_elem? sizes i

abbrev pub size_of : String → PrinterConfig → Option (ℤ × ℤ)
size_of name cfg = size_at (position name cfg.media_names) cfg.media_sizes

abbrev pub count_name : String → List String → ℕ
count_name name [] = 0
count_name name (n ∷ ns) = (if n =ˢ name then 1 else 0) + count_name name ns

-- The names without the entry at a position.
abbrev pub without : Option ℕ → List String → List String
without none ns = ns
without (some i) ns = remove_at i ns

pub count_name-without_self :
    (m : String) (ns : List String)
    → count_name m ns
      ≡ (elim (position m ns) [ none ↦ 0 | some i ↦ 1 ]) + count_name m (without (position m ns) ns)
count_name-without_self m [] = refl
count_name-without_self m (n ∷ ns) = elim (Bool-cases (n =ˢ m)) [
  | inl hit ↦ rw hit
  | inr miss ↦ rw miss (ground (arith, count_name-without_self m ns))
]

pub count_name-without_other :
    (m name : String) (ns : List String)
    → name ≢ m
    → count_name name (without (position m ns) ns) ≡ count_name name ns
count_name-without_other m name [] other = refl
count_name-without_other m name (n ∷ ns) other =
    ground (arith, eq_iff n m, eq_iff n name, count_name-without_other m name ns other)

size_at-nil : (p : Option ℕ) → size_at p [] ≡ none
size_at-nil none = refl
size_at-nil (some i) = refl

pub size_at-shift :
    (p : Option ℕ) (s : ℤ × ℤ) (sizes : List (ℤ × ℤ))
    → size_at (shift p) (s ∷ sizes) ≡ size_at p sizes
size_at-shift none s sizes = refl
size_at-shift (some i) s sizes = refl

cut_at-suc :
    (i : ℕ) (s : ℤ × ℤ) (sizes : List (ℤ × ℤ)) → cut_at (suc i) (s ∷ sizes) ≡ s ∷ cut_at i sizes
cut_at-suc i s sizes = ground arith

cut_at-zero : (s : ℤ × ℤ) (sizes : List (ℤ × ℤ)) → cut_at 0 (s ∷ sizes) ≡ sizes
cut_at-zero s sizes = ground arith

cut_at-nil : (i : ℕ) → cut_at {A = ℤ × ℤ} i [] ≡ []
cut_at-nil i = ground arith

-- The step of `position-cut` behind a name that stays.
position-cut_cons :
    (n name : String) (p q : Option ℕ) (s : ℤ × ℤ) (kept sizes : List (ℤ × ℤ))
    → size_at p kept ≡ size_at q sizes
    → size_at (if n =ˢ name then some 0 else shift p) (s ∷ kept)
      ≡ size_at (if n =ˢ name then some 0 else shift q) (s ∷ sizes)
position-cut_cons n name p q s kept sizes e = elim (Bool-cases (n =ˢ name)) [
  | inl hit ↦ rw hit
  | inr miss ↦ rw (miss, size_at-shift p s kept, size_at-shift q s sizes) e
]

shift-some : (p : Option ℕ) (i : ℕ) → shift p ≡ some i → (k : ℕ) × (i ≡ suc k) × (p ≡ some k)
shift-some none i e = cc
shift-some (some k) i e = (k, ground arith, refl)

pub shift-none : (p : Option ℕ) → shift p ≡ none → p ≡ none
shift-none none e = refl
shift-none (some k) e = cc

pub position-cut :
    (m name : String) (ns : List String) (sizes : List (ℤ × ℤ)) (i : ℕ)
    → name ≢ m
    → position m ns ≡ some i
    → size_at (position name (remove_at i ns)) (cut_at i sizes) ≡ size_at (position name ns) sizes
position-cut m name ns [] i other at_i = rw (cut_at-nil i) (size_at-nil _ ∙ sym (size_at-nil _))
position-cut m name [] (s ∷ sizes) i other at_i = cc
position-cut m name (n ∷ ns) (s ∷ sizes) i other at_i = elim (Bool-cases (n =ˢ m)) [
  | inl hit ↦
      let zeroth : i ≡ 0 = ground arith in
      let miss : (n =ˢ name) ≡ false = ground (arith, eq_iff n m, eq_iff n name) in
      rw (zeroth, miss, cut_at-zero s sizes) (sym (size_at-shift (position name ns) s sizes))
  | inr miss ↦
      let later : shift (position m ns) ≡ some i = rw miss at at_i in
      let (k, next, at_k) = shift-some (position m ns) i later in
      rw (next, cut_at-suc k s sizes)
        (position-cut_cons n name (position name (remove_at k ns)) (position name ns) s
          (cut_at k sizes) sizes (position-cut m name ns sizes k other at_k))
]

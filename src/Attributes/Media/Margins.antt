-- ===== src/Attributes/Media/Margins.antt =====
-- src/attributes.rs: that the margins of every media collection are advertised as supported.
use ipp_printer_app.Base.Int.{ℤ}
use ipp_printer_app.Base.{
  All-map, All-append, is_nil, String, false, map, ◌++◌, All, true, Bool, List, [], any, ap, arith,
  refl, ℕ, ◌==◌, ◌||◌, ◌∙◌, ◌∷◌, ◌≡◌,
}
use ipp_printer_app.Printer.{PrinterConfig}
use ipp_printer_app.Attributes.Media.{
  Row, side_margin_hmm, side_margins, insert_margin, sort_margins, or_zero, zip_sizes, default_size,
  first_size, media_rows, custom_rows, custom_media_range,
}

abbrev pub has : ℕ → List ℕ → Bool
has m ns = any (λ n. n == m) ns

has-insert_margin : (k m : ℕ) (ns : List ℕ) → has k (insert_margin m ns) ≡ ((m == k) || has k ns)
has-insert_margin k m [] = ground arith
has-insert_margin k m (n ∷ ns) = ground (arith, has-insert_margin k m ns)

has-sort_margins : (k : ℕ) (ms : List ℕ) → has k (sort_margins ms) ≡ has k ms
has-sort_margins k [] = refl
has-sort_margins k (m ∷ ms) =
    has-insert_margin k m (sort_margins ms) ∙ ap (λ b. (m == k) || b) (has-sort_margins k ms)

has-append : (k : ℕ) (ms ns : List ℕ) → has k (ms ++ ns) ≡ (has k ms || has k ns)
has-append k [] ns = refl
has-append k (m ∷ ms) ns = ground (arith, has-append k ms ns)

has-left : (k : ℕ) (ms ns : List ℕ) → has k ms ≡ true → has k (ms ++ ns) ≡ true
has-left k ms ns h = rw (has-append k ms ns) (ground arith)

has-right : (k : ℕ) (ms ns : List ℕ) → has k ns ≡ true → has k (ms ++ ns) ≡ true
has-right k ms ns h = rw (has-append k ms ns) (ground arith)

has-or_zero : (k : ℕ) (ms : List ℕ) → has k ms ≡ true → has k (or_zero ms) ≡ true
has-or_zero k [] h = let no : false ≡ true = h in cc no
has-or_zero k (m ∷ ms) h = h

-- Each element's margin is in the list of the margins of all.
has-map {ℓ} : {A : Type ℓ} (f : A → ℕ) (xs : List A) → All (λ x. has (f x) (map f xs) ≡ true) xs
has-map f [] = tt
has-map f (x ∷ xs) = (
  ground arith,
  All-map {P = λ y. has (f y) (map f xs) ≡ true} xs (λ y h. ground (arith, h)) (has-map f xs),
)

All-zip_sizes :
    (P : ℤ × ℤ → Type 0) (d : ℤ × ℤ) (names : List String) (sizes : List (ℤ × ℤ))
    → P d
    → All P sizes
    → All (λ (row : Row). P row.1) (zip_sizes d names sizes)
All-zip_sizes P d [] sizes h k = tt
All-zip_sizes P d (n ∷ ns) [] h k = (h, All-zip_sizes P d ns [] h k)
All-zip_sizes P d (n ∷ ns) (s ∷ ss) h k = (k.0, All-zip_sizes P d ns ss h k.1)

module _ (cfg : PrinterConfig) where
  -- The margin for a sheet of this size is advertised as supported.
  abbrev pub IsSupported : ℤ × ℤ → Type 0
  unfolding side_margin_hmm side_margins
  IsSupported size = has (side_margin_hmm cfg size.0) (side_margins cfg) ≡ true

  abbrev all_margins : List ℕ
  unfolding side_margin_hmm custom_media_range custom_rows
  all_margins =
      map (λ (s : ℤ × ℤ). side_margin_hmm cfg s.0) cfg.media_sizes
      ++ map (λ (row : Row). side_margin_hmm cfg row.1.0) (custom_rows (custom_media_range cfg))

  listed : (size : ℤ × ℤ) → has (side_margin_hmm cfg size.0) all_margins ≡ true → IsSupported size
  unfolding side_margins
  listed size h =
      has-sort_margins (side_margin_hmm cfg size.0) (or_zero all_margins)
      ∙ has-or_zero (side_margin_hmm cfg size.0) all_margins h

  sizes-IsSupported : All IsSupported cfg.media_sizes
  unfolding side_margin_hmm all_margins
  sizes-IsSupported =
      All-map cfg.media_sizes
        (λ s h.
          listed s (has-left _ (map (λ (t : ℤ × ℤ). side_margin_hmm cfg t.0) cfg.media_sizes) _ h))
        (has-map (λ (t : ℤ × ℤ). side_margin_hmm cfg t.0) cfg.media_sizes)

  custom-IsSupported : All (λ (row : Row). IsSupported row.1) (custom_rows (custom_media_range cfg))
  unfolding side_margin_hmm all_margins
  custom-IsSupported =
      All-map (custom_rows (custom_media_range cfg))
        (λ row h.
          listed row.1
            (has-right _ (map (λ (t : ℤ × ℤ). side_margin_hmm cfg t.0) cfg.media_sizes) _ h))
        (has-map (λ (row : Row). side_margin_hmm cfg row.1.0)
          (custom_rows (custom_media_range cfg)))

first_size-All :
    (P : ℤ × ℤ → Type 0) (sizes : List (ℤ × ℤ))
    → is_nil sizes ≡ false
    → All P sizes
    → P (first_size sizes)
first_size-All P [] some_size h = let no : true ≡ false = some_size in cc no
first_size-All P (s ∷ ss) some_size h = h.0

-- For a configuration that lists at least one size, the side margin of every row of `media-col-database` (the
-- named sizes, those that fall back to the default size, and the two custom bounds) is in the list of supported
-- margins.
pub media_rows-IsSupported :
    (cfg : PrinterConfig)
    → is_nil cfg.media_sizes ≡ false
    → All (λ (row : Row). IsSupported cfg row.1) (media_rows cfg)
unfolding media_rows
media_rows-IsSupported cfg some_size =
    All-append _ (zip_sizes (default_size cfg) cfg.media_names cfg.media_sizes)
      (custom_rows (custom_media_range cfg))
      (All-zip_sizes (IsSupported cfg) (default_size cfg) cfg.media_names cfg.media_sizes
        (first_size-All (IsSupported cfg) cfg.media_sizes some_size (sizes-IsSupported cfg))
        (sizes-IsSupported cfg))
      (custom-IsSupported cfg)

-- ===== src/Attributes/Media.antt =====
-- src/attributes.rs: the media attributes. A `BTreeMap` of members is written in the order of its keys.
pub mod Margins
use ipp_printer_app.Base.{
  Bool, List, Option, String, [], if◌then◌else◌, ltb, map, max, min, none, some, ℕ, ◌&&◌, ◌*◌, ◌++◌,
  ◌/◌, ◌==◌, ◌||◌, ◌∷◌,
}
use ipp_printer_app.Base.Int.{as_i32, as_u32, leb_ℤ, ltb_ℤ, negsuc, pos, ℤ, ◌-ℤ◌, ◌/ℤ◌}
use ipp_printer_app.Device.{ReadyMedia}
use ipp_printer_app.Printer.{PrinterConfig, PrinterRecord}
use ipp_printer_app.Texts.{concat, show_ℤ}
use ipp_printer_app.Ipp.{
  Attr, attr, IppValue, Members, end, member, keyword, integer, collection, range_of_integer, array,
  values,
}
use ipp_printer_app.Attributes.{keywords}

abbrev pub max_0 : ℤ → ℕ
max_0 (pos n) = n
max_0 (negsuc n) = 0

-- The width of the printhead, a `u32` of dots, at a positive resolution.
unfoldable pub head_hmm : PrinterConfig → ℤ
head_hmm cfg = as_i32 (cfg.printhead_width_dots * 2540 / max_0 cfg.dpi)

-- The subtraction wraps at 32 bits.
unfoldable pub side_margin_hmm : PrinterConfig → ℤ → ℕ
unfolding head_hmm
side_margin_hmm cfg width_hmm =
    if leb_ℤ cfg.dpi (pos 0) || cfg.printhead_width_dots == 0
    then 0
    else max_0 (as_i32 (as_u32 (width_hmm -ℤ head_hmm cfg))) / 2

abbrev pub is_positive : ℤ × ℤ → Bool
is_positive size = ltb_ℤ (pos 0) size.0 && ltb_ℤ (pos 0) size.1

unfoldable pub custom_media_range : PrinterConfig → Option ((ℤ × ℤ) × (ℤ × ℤ))
custom_media_range cfg =
    if is_positive cfg.media_size_min
      && (is_positive cfg.media_size_max
          && (leb_ℤ cfg.media_size_min.0 cfg.media_size_max.0
              && leb_ℤ cfg.media_size_min.1 cfg.media_size_max.1))
    then some (cfg.media_size_min, cfg.media_size_max)
    else none

unfoldable pub custom_media_name : String → ℤ × ℤ → String
unfolding show_ℤ
custom_media_name bound size =
    let w = show_ℤ (size.0 /ℤ 100) in
    let h = show_ℤ (size.1 /ℤ 100) in
    concat ("custom_" ∷ bound ∷ "_" ∷ w ∷ "x" ∷ h ∷ "mm_" ∷ w ∷ "x" ∷ h ∷ "mm" ∷ [])

unfoldable pub media_size_col : ℤ × ℤ → IppValue
media_size_col size =
    collection (member "x-dimension" (integer size.0) (member "y-dimension" (integer size.1) end))

unfoldable pub media_size_range_col : ℤ × ℤ → ℤ × ℤ → IppValue
media_size_range_col low high = collection (
    member "x-dimension" (range_of_integer low.0 high.0)
      (member "y-dimension" (range_of_integer low.1 high.1) end))

unfoldable pub media_col : String → ℤ × ℤ → ℕ → IppValue
unfolding media_size_col
media_col name size side_margin = collection (
    member "media-bottom-margin" (integer (pos 0)) (
      member "media-left-margin" (integer (pos side_margin)) (
        member "media-right-margin" (integer (pos side_margin)) (
          member "media-size" (media_size_col size) (
            member "media-size-name" (keyword name)
              (member "media-top-margin" (integer (pos 0)) end))))))

-- A row of `media-col-database`: its keyword and its size.
abbrev pub Row : Type 0
Row = String × (ℤ × ℤ)

unfoldable pub custom_rows : Option ((ℤ × ℤ) × (ℤ × ℤ)) → List Row
unfolding custom_media_name
custom_rows none = []
custom_rows (some bounds) =
    (custom_media_name "min" bounds.0, bounds.0) ∷ (custom_media_name "max" bounds.1, bounds.1) ∷ []

abbrev pub first_size : List (ℤ × ℤ) → ℤ × ℤ
first_size [] = (pos 4000, pos 3000)
first_size (s ∷ rest) = s

abbrev pub default_size : PrinterConfig → ℤ × ℤ
default_size cfg = first_size cfg.media_sizes

-- `media_names` zipped with the sizes and then the default size for ever.
abbrev pub zip_sizes : ℤ × ℤ → List String → List (ℤ × ℤ) → List Row
zip_sizes d [] sizes = []
zip_sizes d (n ∷ ns) [] = (n, d) ∷ zip_sizes d ns []
zip_sizes d (n ∷ ns) (s ∷ ss) = (n, s) ∷ zip_sizes d ns ss

unfoldable pub media_rows : PrinterConfig → List Row
unfolding custom_media_range custom_rows
media_rows cfg =
    zip_sizes (default_size cfg) cfg.media_names cfg.media_sizes
    ++ custom_rows (custom_media_range cfg)

unfoldable pub col_of_row : PrinterConfig → Row → IppValue
unfolding media_col side_margin_hmm
col_of_row cfg row = media_col row.0 row.1 (side_margin_hmm cfg row.1.0)

unfoldable pub range_cols : Option ((ℤ × ℤ) × (ℤ × ℤ)) → List IppValue
unfolding media_size_range_col
range_cols none = []
range_cols (some bounds) = media_size_range_col bounds.0 bounds.1 ∷ []

-- The loaded media, else the default of the configuration.
abbrev pub ready_row : PrinterRecord → Row → Row
ready_row rec d = elim rec.ready_media [ none ↦ d | some rm ↦ (rm.name, rm.size_hmm) ]

-- `[media-default ..media-col-ready]` for the rows, of which the first is `d`.
unfoldable pub media_attrs_of : PrinterRecord → List Row → List Attr
unfolding custom_media_range media_size_col col_of_row range_cols
media_attrs_of rec [] = []
media_attrs_of rec (r ∷ rows) =
    let cfg = rec.config in
    let d : Row = (r.0, default_size cfg) in
    attr "media-default" (keyword r.0)
    ∷ attr "media-supported" (keywords (map (λ (row : Row). row.0) (r ∷ rows)))
    ∷ attr "media-col-default" (col_of_row cfg d)
    ∷ attr "media-col-supported" (
        keywords (
          "media-size" ∷ "media-size-name" ∷ "media-top-margin" ∷ "media-bottom-margin"
          ∷ "media-left-margin" ∷ "media-right-margin" ∷ "media-source" ∷ "media-type" ∷ []))
    ∷ attr "media-col-database" (array (values (map (col_of_row cfg) (r ∷ rows))))
    ∷ attr "media-size-supported"
        (array (values (map media_size_col cfg.media_sizes ++ range_cols (custom_media_range cfg))))
    ∷ attr "media-ready" (keyword (ready_row rec d).0)
    ∷ attr "media-col-ready" (array (values (col_of_row cfg (ready_row rec d) ∷ [])))
    ∷ []

-- `sort_unstable` and `dedup`: the margins in order, each once.
abbrev pub insert_margin : ℕ → List ℕ → List ℕ
insert_margin m [] = m ∷ []
insert_margin m (n ∷ ns) =
    let later = n ∷ insert_margin m ns in
    if m == n then n ∷ ns else if ltb m n then m ∷ n ∷ ns else later

abbrev pub sort_margins : List ℕ → List ℕ
sort_margins [] = []
sort_margins (m ∷ ms) = insert_margin m (sort_margins ms)

abbrev pub or_zero : List ℕ → List ℕ
or_zero [] = 0 ∷ []
or_zero (m ∷ ms) = m ∷ ms

unfoldable pub side_margins : PrinterConfig → List ℕ
unfolding side_margin_hmm custom_media_range custom_rows
side_margins cfg = sort_margins (
    or_zero (
      map (λ (s : ℤ × ℤ). side_margin_hmm cfg s.0) cfg.media_sizes
      ++ map (λ (row : Row). side_margin_hmm cfg row.1.0) (custom_rows (custom_media_range cfg))))

unfoldable pub margin_attrs : PrinterConfig → List Attr
unfolding side_margins
margin_attrs cfg =
    let sides = array (values (map (λ m. integer (pos m)) (side_margins cfg))) in
    attr "media-top-margin-supported" (integer (pos 0))
    ∷ attr "media-bottom-margin-supported" (integer (pos 0))
    ∷ attr "media-left-margin-supported" sides
    ∷ attr "media-right-margin-supported" sides
    ∷ []

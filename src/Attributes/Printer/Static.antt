-- ===== src/Attributes/Printer/Static.antt =====
-- src/attributes.rs: the attributes of `get_printer_attributes` that are the same for every printer.
use ipp_printer_app.Base.{List, [], false, true, ℕ, ◌∷◌}
use ipp_printer_app.Base.Int.{pos}
use ipp_printer_app.Ipp.{
  Attr, attr, keyword, charset, natural_language, text_without_language, integer, enum, boolean,
  array, values, other, range_of_integer,
}
use ipp_printer_app.Attributes.{keywords, enums}

unfoldable pub state_attrs_fixed : List Attr
state_attrs_fixed =
    attr "ipp-versions-supported" (keywords ("1.1" ∷ "2.0" ∷ "2.1" ∷ []))
    ∷ attr "ipp-features-supported" (keywords ("ipp-everywhere" ∷ []))
    ∷ attr "pdl-override-supported" (keyword "attempted")
    ∷ []

-- The codes of `operations-supported`.
abbrev pub operations_supported : List ℕ
operations_supported = 0x2 ∷ 0x4 ∷ 0x5 ∷ 0x6 ∷ 0x8 ∷ 0x9 ∷ 0xa ∷ 0xb ∷ 0x39 ∷ 0x3b ∷ 0x3c ∷ []

unfoldable pub operation_attrs : List Attr
operation_attrs = attr "operations-supported" (enums operations_supported) ∷ []

unfoldable pub language_attrs : List Attr
language_attrs =
    attr "charset-configured" (charset "utf-8")
    ∷ attr "charset-supported" (array (values (charset "utf-8" ∷ [])))
    ∷ attr "natural-language-configured" (natural_language "en")
    ∷ attr "natural-language-supported" (array (values (natural_language "en" ∷ [])))
    ∷ attr "generated-natural-language-supported" (array (values (natural_language "en" ∷ [])))
    ∷ attr "compression-supported" (keywords ("none" ∷ []))
    ∷ []

unfoldable pub feature_attrs : List Attr
feature_attrs =
    attr "color-supported" (boolean false)
    ∷ attr "print-color-mode-supported" (keywords ("monochrome" ∷ []))
    ∷ attr "print-color-mode-default" (keyword "monochrome")
    ∷ attr "sides-supported" (keywords ("one-sided" ∷ []))
    ∷ attr "sides-default" (keyword "one-sided")
    ∷ attr "orientation-requested-default" (enum (pos 3))
    ∷ attr "orientation-requested-supported" (enums (3 ∷ 4 ∷ 5 ∷ 6 ∷ []))
    ∷ attr "identify-actions-supported" (keywords ("display" ∷ "sound" ∷ []))
    ∷ attr "identify-actions-default" (keywords ("display" ∷ []))
    ∷ attr "media-source-supported" (keywords ("main" ∷ []))
    ∷ attr "media-type-supported" (keywords ("labels" ∷ "stationery" ∷ []))
    ∷ attr "output-bin-supported" (keywords ("face-up" ∷ []))
    ∷ attr "output-bin-default" (keyword "face-up")
    ∷ attr "print-content-optimize-supported"
        (keywords ("auto" ∷ "graphic" ∷ "photo" ∷ "text" ∷ "text-and-graphic" ∷ []))
    ∷ attr "print-content-optimize-default" (keyword "auto")
    ∷ attr "finishings-supported" (enums (3 ∷ []))
    ∷ attr "finishings-default" (enum (pos 3))
    ∷ attr "job-creation-attributes-supported" (
        keywords (
          "copies" ∷ "media" ∷ "media-col" ∷ "orientation-requested" ∷ "print-color-mode"
          ∷ "print-content-optimize" ∷ "print-quality" ∷ "printer-resolution" ∷ "sides" ∷ []))
    ∷ []

unfoldable pub copies_attrs : List Attr
copies_attrs =
    attr "copies-supported" (range_of_integer (pos 1) (pos 999))
    ∷ attr "copies-default" (integer (pos 1))
    ∷ attr "print-quality-supported" (enums (3 ∷ 4 ∷ 5 ∷ []))
    ∷ attr "print-quality-default" (enum (pos 4))
    ∷ []

unfoldable pub job_limit_attrs : List Attr
job_limit_attrs =
    attr "multiple-document-jobs-supported" (boolean false)
    ∷ attr "multiple-operation-time-out" (integer (pos 60))
    ∷ attr "multiple-operation-time-out-action" (keyword "process-job")
    ∷ attr "job-ids-supported" (boolean true)
    ∷ attr "preferred-attributes-supported" (boolean false)
    ∷ attr "overrides-supported" (keywords ("document-number" ∷ "pages" ∷ []))
    ∷ attr "printer-get-attributes-supported" (keywords ("document-format" ∷ []))
    ∷ attr "which-jobs-supported" (
        keywords
          ("completed" ∷ "not-completed" ∷ "aborted" ∷ "canceled" ∷ "pending" ∷ "processing" ∷ []))
    ∷ []

-- `other 0x12` is the out-of-band `unknown`.
unfoldable pub rendering_attrs : List Attr
rendering_attrs =
    attr "print-rendering-intent-default" (keyword "auto")
    ∷ attr "print-rendering-intent-supported" (keywords ("auto" ∷ []))
    ∷ attr "pwg-raster-document-sheet-back" (keyword "normal")
    ∷ attr "printer-geo-location" (other 0x12)
    ∷ attr "printer-organization" (text_without_language "")
    ∷ attr "printer-organizational-unit" (text_without_language "")
    ∷ []

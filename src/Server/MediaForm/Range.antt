-- ===== src/Server/MediaForm/Range.antt =====
-- src/server.rs, `media_apply_handler`: the test that refuses a size.
use ipp_printer_app.Base.{
  ap, arith, false, if◌then◌else◌, ltb, sym, true, ℕ, ◌%◌, ◌*◌, ◌+◌, ◌-◌, ◌<◌, ◌↔◌, ◌∙◌, ◌≡◌,
}
use ipp_printer_app.Base.Int.{as_i32-small, negsuc, pos, ℤ, ◌≤ℤ◌}
use ipp_printer_app.Printer.{PrinterConfig}
use ipp_printer_app.Server.MediaForm.{is_outside, is_positive, to_hmm}

to_hmm-small : (mm : ℕ) → mm < 21474836 → to_hmm mm ≡ pos (mm * 100)
to_hmm-small mm h = as_i32-small (mm * 100) (omega arith)

-- 2^30 hundreds are 25 times 2^32.
to_hmm-wraps : (mm : ℕ) → to_hmm (mm + 1073741824) ≡ to_hmm mm
to_hmm-wraps mm =
    let same : (mm + 1073741824) * 100 % 4294967296 ≡ mm * 100 % 4294967296 = omega arith in
    ap (λ r. if ltb r 2147483648 then pos r else negsuc (4294967295 - r)) same

module _ (cfg : PrinterConfig) (size : ℤ × ℤ) where
  -- Both sides of the sheet are within the limits of the printer.
  abbrev pub IsWithin : Type 0
  IsWithin =
      (cfg.media_size_min.0 ≤ℤ size.0)
      × (cfg.media_size_min.1 ≤ℤ size.1)
      × (size.0 ≤ℤ cfg.media_size_max.0)
      × (size.1 ≤ℤ cfg.media_size_max.1)

  within-inside : is_positive cfg.media_size_min ≡ true → is_outside cfg size ≡ false → IsWithin
  unfolding is_outside
  within-inside limited inside = (ground arith, ground arith, ground arith, ground arith)

  inside-within : IsWithin → is_outside cfg size ≡ false
  unfolding is_outside
  inside-within within = ground (arith, within.0, within.1, within.2, within.3)

-- For a printer that states limits and a size of which the hundredths fit a signed word, the range check passes exactly
-- if both sides are within the limits; but a width that is 2^30 mm larger gets the same verdict.
pub is_outside_lem :
    (cfg : PrinterConfig) (width height : ℕ)
    → is_positive cfg.media_size_min ≡ true
    → width < 21474836
    → height < 21474836
    → ((is_outside cfg (to_hmm width, to_hmm height) ≡ false)
        ↔ IsWithin cfg (pos (width * 100), pos (height * 100)))
      × (is_outside cfg (to_hmm (width + 1073741824), to_hmm height)
          ≡ is_outside cfg (to_hmm width, to_hmm height))
is_outside_lem cfg width height limited hw hh =
    let size : ℤ × ℤ = (pos (width * 100), pos (height * 100)) in
    let exact : is_outside cfg (to_hmm width, to_hmm height) ≡ is_outside cfg size =
      rw (to_hmm-small width hw, to_hmm-small height hh) in
    (
      (
        (λ inside. within-inside cfg size limited (sym exact ∙ inside)),
        (λ within. exact ∙ inside-within cfg size within),
      ),
      ap (λ w. is_outside cfg (w, to_hmm height)) (to_hmm-wraps width),
    )

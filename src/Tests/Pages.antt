-- ===== src/Tests/Pages.antt =====
-- Checks of the web pages and of the media form.
use ipp_printer_app.Base.{
  List, any, arith, err, false, get_or, length, refl, some, true, ℕ, ◌*◌, ◌+◌, ◌↔◌, ◌≡◌,
}
use ipp_printer_app.Base.Int.{pos}
use ipp_printer_app.State.{write_ok}
use ipp_printer_app.Texts.{chars}
use ipp_printer_app.Server.Pages.{icon_png}
use ipp_printer_app.Server.MediaForm.{
  is_positive, MediaChange, MediaForm, esc, esc_chars, is_outside, media_apply_handler, to_hmm,
}
use ipp_printer_app.Server.MediaForm.Escape.{escape, is_markup, esc_chars_lem}
use ipp_printer_app.Server.MediaForm.Change.{IsUntouched, is_ok, media_apply_handler-IsUntouched}
use ipp_printer_app.Server.MediaForm.Range.{IsWithin, is_outside_lem}
use ipp_printer_app.Tests.{printer, server}

escaped : esc "<a href=\"x\">R&D</a>" ≡ "&lt;a href=&quot;x&quot;&gt;R&amp;D&lt;/a&gt;"
unfolding esc
escaped = refl

esc_chars_lem_example :
    (esc_chars (chars "R&D <x>") ≡ escape (chars "R&D <x>"))
    × (any is_markup (esc_chars (chars "R&D <x>")) ≡ false)
esc_chars_lem_example = esc_chars_lem (chars "R&D <x>")

-- A width of 42949690 mm passes the range check as one of 17.04 mm.
wrapped : to_hmm 42949690 ≡ pos 1704
wrapped = refl

wrapped_passes : is_outside printer.config (to_hmm 42949690, to_hmm 30) ≡ false
unfolding is_outside
wrapped_passes = refl

abbrev be_u32 : List ℕ → ℕ → ℕ
be_u32 bytes i =
    ((get_or bytes i 0 * 256 + get_or bytes (i + 1) 0) * 256 + get_or bytes (i + 2) 0) * 256
    + get_or bytes (i + 3) 0

-- The chunk at 33 says that it has 13 bytes, so that the next one begins at 58, where no chunk does: the length read
-- there is beyond the end of the icon.
icon_chunk : be_u32 icon_png 33 ≡ 13
icon_chunk = refl

icon_after : be_u32 icon_png (33 + 12 + 13) ≡ 4801870
icon_after = refl

icon_length : length icon_png ≡ 67
icon_length = refl

abbrev form : MediaForm
form = record { width_mm = 50; height_mm = 30 }

abbrev refuses : MediaChange
refuses name media = err "a tag describes the roll"

refused :
    is_ok (media_apply_handler write_ok (some refuses) (λ st. st) server "labels" form).1.0 ≡ false
unfolding media_apply_handler
refused = refl

media_apply_handler-IsUntouched_example :
    IsUntouched write_ok
      (some refuses)
      (λ st. st)
      server
      "labels"
      form
      (media_apply_handler write_ok (some refuses) (λ st. st) server "labels" form).0
media_apply_handler-IsUntouched_example =
    media_apply_handler-IsUntouched write_ok (some refuses) (λ st. st) server "labels" form refused

limited : is_positive printer.config.media_size_min ≡ true
limited = refl

is_outside_lem_example :
    ((is_outside printer.config (to_hmm 50, to_hmm 30) ≡ false)
      ↔ IsWithin printer.config (pos (50 * 100), pos (30 * 100)))
    × (is_outside printer.config (to_hmm (50 + 1073741824), to_hmm 30)
        ≡ is_outside printer.config (to_hmm 50, to_hmm 30))
is_outside_lem_example = is_outside_lem printer.config 50 30 limited (omega arith) (omega arith)

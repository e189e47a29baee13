-- ===== src/Server/MediaForm.antt =====
-- src/server.rs: the page of a printer, and the form that sets its loaded media. An answer is the status and the body.
pub mod Escape
pub mod Change
pub mod Range
use ipp_printer_app.Base.{
  Bool, Char, List, Option, Result, String, [], err, false, find, if◌then◌else◌, map, none, not, ok,
  set, some, true, update_first, ℕ, ◌&&◌, ◌*◌, ◌++◌, ◌=ˢ◌, ◌||◌, ◌∷◌,
}
use ipp_printer_app.Base.Int.{as_i32, as_u32, ltb_ℤ, pos, ℤ, ◌/ℤ◌}
use ipp_printer_app.Device.{ReadyMedia}
use ipp_printer_app.Printer.{
  PrinterConfig, PrinterRecord, display_label, first, is_named, printer_uri, set_ready_media,
}
use ipp_printer_app.State.{Write}
use ipp_printer_app.Texts.{chars, concat, from_chars, is_char, show, show_ℤ}
use ipp_printer_app.Server.{AppState, persist_state}

pub data StatusCode : Type 0 where
  http_ok http_bad_request http_not_found http_conflict : StatusCode

abbrev pub Page : Type 0
Page = StatusCode × String

-- `str::replace` of one character.
unfoldable pub replace : ℕ → String → List Char → List Char
replace c by [] = []
replace c by (x ∷ xs) =
    let rest = replace c by xs in if is_char c x then chars by ++ rest else x ∷ rest

unfoldable pub esc_chars : List Char → List Char
unfolding replace
esc_chars cs =
    replace b'"' "&quot;" (replace b'>' "&gt;" (replace b'<' "&lt;" (replace b'&' "&amp;" cs)))

unfoldable pub esc : String → String
unfolding esc_chars
esc s = from_chars (esc_chars (chars s))

-- Both fields are a `u32`.
pub record MediaForm : Type 0 where
  pub width_mm : ℕ
  pub height_mm : ℕ

abbrev pub known_size : Option ReadyMedia → Option (ℤ × ℤ) → ℤ × ℤ
known_size (some rm) default_size = rm.size_hmm
known_size none (some size) = size
known_size none none = (pos 4000, pos 3000)

unfoldable pub current_media_mm : PrinterRecord → ℕ × ℕ
current_media_mm rec =
    let hmm = known_size rec.ready_media (first rec.config.media_sizes) in
    (as_u32 (hmm.0 /ℤ 100), as_u32 (hmm.1 /ℤ 100))

abbrev pub is_positive : ℤ × ℤ → Bool
is_positive v = ltb_ℤ (pos 0) v.0 && ltb_ℤ (pos 0) v.1

unfoldable pub bounds_text : PrinterConfig → String
unfolding show_ℤ
bounds_text cfg =
    if is_positive cfg.media_size_min
    then concat (
        "<p>Accepts "
        ∷ show_ℤ (cfg.media_size_min.0 /ℤ 100)
        ∷ "×"
        ∷ show_ℤ (cfg.media_size_min.1 /ℤ 100)
        ∷ "mm to "
        ∷ show_ℤ (cfg.media_size_max.0 /ℤ 100)
        ∷ "×"
        ∷ show_ℤ (cfg.media_size_max.1 /ℤ 100)
        ∷ "mm.</p>"
        ∷ [])
    else ""

unfoldable pub banner : Option String → Bool → String
unfolding esc
banner (some m) true = concat ("<p style=\"color:#b00\"><b>" ∷ esc m ∷ "</b></p>" ∷ [])
banner (some m) false = concat ("<p style=\"color:#070\">" ∷ esc m ∷ "</p>" ∷ [])
banner none is_error = ""

unfoldable pub media_page : PrinterRecord → Option String → Bool → String
unfolding current_media_mm bounds_text banner esc show
media_page rec message is_error =
    let (w, h) = current_media_mm rec in
    concat (
      "<!DOCTYPE html><html><head><title>Media — "
      ∷ esc rec.config.name
      ∷ "</title></head><body><h1>Loaded media</h1><h2>"
      ∷ esc (display_label rec.config)
      ∷ "</h2>"
      ∷ banner message is_error
      ∷ bounds_text rec.config
      ∷ "<form method=\"post\"><label>Width <input name=\"width_mm\" type=\"number\" min=\"1\" value=\""
      ∷ show w
      ∷ "\"></label> mm<br><label>Length <input name=\"height_mm\" type=\"number\" min=\"1\" value=\""
      ∷ show h
      ∷ "\"></label> mm<br><button type=\"submit\">Set</button></form><p><a href=\"/\">Back</a></p></body></html>"
      ∷ [])

abbrev pub no_such_printer : Page
no_such_printer = (http_not_found, "<p>No such printer.</p>")

unfoldable pub form_of : Option PrinterRecord → Page
unfolding media_page
form_of none = no_such_printer
form_of (some rec) = (http_ok, media_page rec none false)

unfoldable pub media_form_handler : AppState → String → Page
unfolding form_of
media_form_handler st name = form_of (find (is_named name) st.printers)

-- `as i32 * 100`, which wraps around where overflow is not checked.
abbrev pub to_hmm : ℕ → ℤ
to_hmm mm = as_i32 (mm * 100)

-- The test that refuses a size.
unfoldable pub is_outside : PrinterConfig → ℤ × ℤ → Bool
is_outside cfg size =
    is_positive cfg.media_size_min
    && (ltb_ℤ size.0 cfg.media_size_min.0
        || (ltb_ℤ size.1 cfg.media_size_min.1
            || (ltb_ℤ cfg.media_size_max.0 size.0 || ltb_ℤ cfg.media_size_max.1 size.1)))

unfoldable pub requested_media : MediaForm → ReadyMedia
unfolding show
requested_media form = record {
  name = concat (
      "om_"
      ∷ show form.width_mm
      ∷ "x"
      ∷ show form.height_mm
      ∷ "mm_"
      ∷ show form.width_mm
      ∷ "x"
      ∷ show form.height_mm
      ∷ "mm"
      ∷ []);
  size_hmm = (to_hmm form.width_mm, to_hmm form.height_mm);
  media_type = "labels";
}

abbrev pub size_text : MediaForm → String
unfolding show
size_text form = concat (show form.width_mm ∷ "×" ∷ show form.height_mm ∷ "mm" ∷ [])

-- The hook of the consumer crate: an error refuses the change.
abbrev pub MediaChange : Type 0
MediaChange = String → ReadyMedia → Result {0, 0} String Unit

abbrev pub ask : Option MediaChange → String → ReadyMedia → Result {0, 0} String Unit
ask none name media = ok tt
ask (some hook) name media = hook name media

-- The second lookup and the change of the printer, under the write lock, with the page that is answered at the end.
unfoldable pub change_media : AppState → String → MediaForm → Option PrinterRecord → AppState × Page
unfolding requested_media set_ready_media media_page
change_media st name form none = (st, no_such_printer)
change_media st name form (some rec) =
    let media = requested_media form in
    (
      record st {
        printers = update_first (is_named name) (λ p. (set_ready_media media p).0) st.printers;
      },
      (
        http_ok,
        media_page (set_ready_media media rec).0
            (some (concat ("Loaded media set to " ∷ size_text form ∷ "." ∷ []))) false,
      ),
    )

-- From the second lookup on, where no other task runs between the change, the snapshot and the write: the three are
-- separate steps of the tasks of a running server.
unfoldable pub set_media :
    Write → AppState → String → MediaForm → Option PrinterRecord → AppState × Page
unfolding change_media persist_state
set_media write st name form none = change_media st name form none
set_media write st name form (some rec) =
    let (changed, page) = change_media st name form (some rec) in
    (persist_state write changed, page)

unfoldable pub after_ask :
    Write
    → AppState
    → String
    → MediaForm
    → PrinterRecord
    → Result {0, 0} String Unit
    → AppState × Page
unfolding set_media media_page
after_ask write st name form rec (err reason) =
    (st, (http_conflict, media_page rec (some reason) true))
after_ask write st name form rec (ok agreed) =
    set_media write st name form (find (is_named name) st.printers)

unfoldable pub apply_to :
    Write
    → Option MediaChange
    → (AppState → AppState)
    → AppState
    → String
    → MediaForm
    → Option PrinterRecord
    → AppState × Page
unfolding is_outside requested_media after_ask media_page
apply_to write hook during st name form none = (st, no_such_printer)
apply_to write hook during st name form (some rec) =
    if is_outside rec.config (to_hmm form.width_mm, to_hmm form.height_mm)
    then (
      st,
      (
        http_bad_request,
        media_page rec (some (concat (size_text form ∷ " is outside the supported range." ∷ [])))
            true,
      ),
    )
    else after_ask write (during st) name form rec (ask hook name (requested_media form))

-- `during` is what other tasks do to the shared state between the first lookup and the second, while the hook is
-- awaited.
unfoldable pub media_apply_handler :
    Write
    → Option MediaChange
    → (AppState → AppState)
    → AppState
    → String
    → MediaForm
    → AppState × Page
unfolding apply_to
media_apply_handler write hook during st name form =
    apply_to write hook during st name form (find (is_named name) st.printers)

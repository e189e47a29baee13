-- ===== src/Server/MediaForm/Change.antt =====
-- src/server.rs, `media_apply_handler`: a change of the loaded media that is refused, and one that is made.
use ipp_printer_app.Base.{
  Bool, Option, Result, String, err, false, find, if◌then◌else◌, inl, inr, none, ok, refl, some,
  true, ◌≡◌, ◌⊎◌,
}
use mathlib.Core.Option
use ipp_printer_app.Printer.{PrinterRecord, is_named}
use ipp_printer_app.State.{Write}
use ipp_printer_app.Server.{AppState}
use ipp_printer_app.Server.MediaForm.{
  MediaChange, MediaForm, Page, StatusCode, after_ask, apply_to, ask, http_bad_request,
  http_conflict, http_not_found, http_ok, is_outside, media_apply_handler, requested_media,
  set_media, to_hmm,
}

abbrev pub is_ok : StatusCode → Bool
is_ok http_ok = true
is_ok http_bad_request = false
is_ok http_not_found = false
is_ok http_conflict = false

module _ (write : Write) (hook : Option MediaChange) (during : AppState → AppState) (st : AppState)
    (name : String) (form : MediaForm) where
  -- Nothing is written by the handler: the state is the one it found, or what other tasks made of it.
  abbrev pub IsUntouched : AppState → Type 0
  IsUntouched st' = (st' ≡ st) ⊎ (st' ≡ during st)

  set_media-IsUntouched :
      (found : Option PrinterRecord)
      → is_ok (set_media write (during st) name form found).1.0 ≡ false
      → IsUntouched (set_media write (during st) name form found).0
  unfolding set_media
  set_media-IsUntouched none h = inr refl
  set_media-IsUntouched (some rec) h = cc h

  after_ask-IsUntouched :
      (rec : PrinterRecord) (said : Result {0, 0} String Unit)
      → is_ok (after_ask write (during st) name form rec said).1.0 ≡ false
      → IsUntouched (after_ask write (during st) name form rec said).0
  unfolding after_ask
  after_ask-IsUntouched rec (err reason) h = inr refl
  after_ask-IsUntouched rec (ok agreed) h =
      set_media-IsUntouched (find (is_named name) (during st).printers) h

  checked-IsUntouched :
      (rec : PrinterRecord) (outside : Bool) (msg : String) (r : AppState × Page)
      → (is_ok r.1.0 ≡ false → IsUntouched r.0)
      → is_ok (if outside then (st, (http_bad_request, msg)) else r).1.0 ≡ false
      → IsUntouched (if outside then (st, (http_bad_request, msg)) else r).0
  checked-IsUntouched rec true msg r k h = inl refl
  checked-IsUntouched rec false msg r k h = k h

  apply_to-IsUntouched :
      (found : Option PrinterRecord)
      → is_ok (apply_to write hook during st name form found).1.0 ≡ false
      → IsUntouched (apply_to write hook during st name form found).0
  unfolding apply_to
  apply_to-IsUntouched none h = inl refl
  apply_to-IsUntouched (some rec) h =
      checked-IsUntouched rec (is_outside rec.config (to_hmm form.width_mm, to_hmm form.height_mm))
        _ _ (after_ask-IsUntouched rec (ask hook name (requested_media form))) h

  -- A change of the loaded media that is answered by an error, whichever it is, leaves the printers and the file as
  -- they were but for what other tasks did meanwhile.
  pub media_apply_handler-IsUntouched :
      is_ok (media_apply_handler write hook during st name form).1.0 ≡ false
      → IsUntouched (media_apply_handler write hook during st name form).0
  unfolding media_apply_handler
  media_apply_handler-IsUntouched h = apply_to-IsUntouched (find (is_named name) st.printers) h

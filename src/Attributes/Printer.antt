-- ===== src/Attributes/Printer.antt =====
-- src/attributes.rs, `get_printer_attributes`: the printer's description, in the order of the source.
pub mod Static
use ipp_printer_app.Base.{
  List, Option, Result, String, [], if◌then◌else◌, map, max, none, some, true, ℕ, ◌++◌, ◌/◌, ◌=ˢ◌,
  ◌||◌, ◌∷◌,
}
use ipp_printer_app.Base.Int.{as_i32, negsuc, pos, ℤ}
use ipp_printer_app.Flags.{ipp_keywords}
use ipp_printer_app.Job.{SystemTime}
use ipp_printer_app.Printer.{PrinterConfig, PrinterRecord, printer_state_code, display_label}
use ipp_printer_app.Texts.{concat, show}
use ipp_printer_app.Ipp.{
  Attr, attr, Group, Response, IppCrate, IppValue, keyword, uri, mime_media_type, charset,
  natural_language, text_without_language, name_without_language, octet_string, integer, enum,
  boolean, resolution, array, values, printer_attributes, successful_ok,
}
use ipp_printer_app.Attributes.{keywords, enums, add_all, and_add, filter_requested}
use ipp_printer_app.Attributes.Clock.{datetime_utc}
use ipp_printer_app.Attributes.Media.{media_rows, media_attrs_of, margin_attrs}
use ipp_printer_app.Attributes.Printer.Static.{
  state_attrs_fixed, operation_attrs, language_attrs, feature_attrs, copies_attrs, job_limit_attrs,
  rendering_attrs,
}

unfoldable pub advertise_host : String → String
advertise_host host =
    if host =ˢ "0.0.0.0" || (host =ˢ "::" || host =ˢ "") then "localhost" else host

unfoldable pub record_uri : PrinterRecord → String → ℕ → String
unfolding advertise_host show
record_uri rec host port =
    concat ("ipp://" ∷ advertise_host host ∷ ":" ∷ show port ∷ "/ipp/print/" ∷ rec.config.name ∷ [])

-- `format!("http://{}:{}{path}", ..)`
unfoldable pub http_uri : String → ℕ → String → String
unfolding advertise_host show
http_uri host port path = concat ("http://" ∷ advertise_host host ∷ ":" ∷ show port ∷ path ∷ [])

-- `up` is what `uptime_secs` gives.
unfoldable pub identity_attrs : ℕ → PrinterRecord → String → ℕ → List Attr
unfolding record_uri http_uri display_label
identity_attrs up rec host port =
    let cfg = rec.config in
    attr "printer-uri-supported" (uri (record_uri rec host port))
    ∷ attr "uri-authentication-supported" (keyword "none")
    ∷ attr "uri-security-supported" (keyword "none")
    ∷ attr "printer-name" (name_without_language cfg.name)
    ∷ attr "printer-location" (text_without_language "")
    ∷ attr "printer-info" (text_without_language (display_label cfg))
    ∷ attr "printer-make-and-model" (text_without_language cfg.make_and_model)
    ∷ attr "printer-more-info" (uri (http_uri host port "/"))
    ∷ attr "printer-uuid" (uri (concat ("urn:uuid:" ∷ rec.uuid ∷ [])))
    ∷ attr "printer-up-time" (integer (as_i32 (max up 1)))
    ∷ []

unfoldable pub state_attrs : PrinterRecord → List Attr
unfolding ipp_keywords
state_attrs rec =
    attr "printer-state" (enum (pos (printer_state_code rec.state)))
    ∷ attr "printer-state-reasons" (keywords (ipp_keywords rec.reasons))
    ∷ attr "printer-is-accepting-jobs" (boolean true)
    ∷ attr "queued-job-count" (integer (pos 0))
    ∷ []

abbrev pub device_id_attrs : PrinterConfig → List Attr
device_id_attrs cfg =
    if cfg.device_id =ˢ ""
    then []
    else attr "printer-device-id" (text_without_language cfg.device_id) ∷ []

abbrev pub formats : List String → List IppValue
formats [] =
    mime_media_type "image/pwg-raster"
    ∷ mime_media_type "application/vnd.cups-raster"
    ∷ mime_media_type "application/octet-stream"
    ∷ []
formats (f ∷ fs) = map mime_media_type (f ∷ fs)

abbrev pub square_resolution : PrinterConfig → IppValue
square_resolution cfg = resolution cfg.dpi cfg.dpi 3

unfoldable pub format_attrs : PrinterConfig → List Attr
format_attrs cfg =
    attr "document-format-supported" (array (values (formats cfg.document_formats)))
    ∷ attr "document-format-default" (mime_media_type "image/pwg-raster")
    ∷ attr "pwg-raster-document-type-supported" (keywords ("black_1" ∷ []))
    ∷ attr "pwg-raster-document-resolution-supported" (array (values (square_resolution cfg ∷ [])))
    ∷ attr "urf-supported" (keywords ("W8" ∷ "SRGB24" ∷ "CP1" ∷ "RS203" ∷ []))
    ∷ []

unfoldable pub resolution_attrs : PrinterConfig → List Attr
resolution_attrs cfg =
    attr "printer-resolution-default" (square_resolution cfg)
    ∷ attr "printer-resolution-supported" (array (values (square_resolution cfg ∷ [])))
    ∷ []

abbrev pub or_full : Option ℕ → ℕ
or_full none = 100
or_full (some n) = n

unfoldable pub supply_attrs : PrinterRecord → String → ℕ → List Attr
unfolding show http_uri
supply_attrs rec host port =
    attr "printer-supply" (
      array (
        values (
          octet_string (
            concat (
              "index=1;class=supplyThatIsConsumed;type=stoppingMaterial;unit=percent;maxcapacity=100;level="
              ∷ show (or_full rec.supply_percent)
              ∷ ";colorantname=unknown;"
              ∷ []))
          ∷ [])))
    ∷ attr "printer-supply-description" (array (values (text_without_language "Label Stock" ∷ [])))
    ∷ attr "printer-supply-info-uri" (uri (http_uri host port "/"))
    ∷ []

-- `now_unix`.
unfoldable pub now_unix : SystemTime → ℤ
now_unix (pos ns) = pos (ns / 1000000000)
now_unix (negsuc ns) = pos 0

unfoldable pub change_attrs : ℕ → SystemTime → List Attr
unfolding datetime_utc now_unix
change_attrs up now =
    attr "printer-config-change-time" (integer (as_i32 up))
    ∷ attr "printer-config-change-date-time" (datetime_utc (now_unix now))
    ∷ attr "printer-state-change-time" (integer (as_i32 up))
    ∷ attr "printer-state-change-date-time" (datetime_utc (now_unix now))
    ∷ []

unfoldable pub icon_attrs : String → ℕ → List Attr
unfolding http_uri
icon_attrs host port =
    attr "printer-icons" (array (values (uri (http_uri host port "/icon.png") ∷ [])))
    ∷ attr "pages-per-minute" (integer (pos 20))
    ∷ []

unfoldable pub all_printer_attrs : ℕ → SystemTime → PrinterRecord → String → ℕ → List Attr
unfolding identity_attrs state_attrs state_attrs_fixed operation_attrs language_attrs format_attrs
    feature_attrs resolution_attrs media_rows media_attrs_of margin_attrs copies_attrs
    job_limit_attrs rendering_attrs icon_attrs supply_attrs change_attrs
all_printer_attrs up now rec host port =
    let cfg = rec.config in
    identity_attrs up rec host port
    ++ (state_attrs rec
        ++ (state_attrs_fixed
            ++ (device_id_attrs cfg
                ++ (operation_attrs
                    ++ (language_attrs
                        ++ (format_attrs cfg
                            ++ (feature_attrs
                                ++ (resolution_attrs cfg
                                    ++ (media_attrs_of rec (media_rows cfg)
                                        ++ (margin_attrs cfg
                                            ++ (copies_attrs
                                                ++ (job_limit_attrs
                                                    ++ (rendering_attrs
                                                        ++ (icon_attrs host port
                                                            ++ (supply_attrs rec host port
                                                            ++ change_attrs up now)))))))))))))))

module _ (crate : IppCrate) (up : ℕ) (now : SystemTime) where
  unfoldable pub get_printer_attributes :
      ℕ → ℕ → PrinterRecord → String → ℕ → Option (List String) → Result String Response
  unfolding add_all all_printer_attrs filter_requested
  get_printer_attributes version request_id rec host port requested =
      and_add (crate.new_response version successful_ok request_id) (λ groups.
        filter_requested requested
          (add_all crate printer_attributes (all_printer_attrs up now rec host port) groups))

  unfoldable pub validate_job : ℕ → ℕ → PrinterRecord → String → ℕ → Result String Response
  unfolding get_printer_attributes
  validate_job version request_id rec host port =
      get_printer_attributes version request_id rec host port none

-- ===== src/Server/Pages.antt =====
-- src/server.rs: the page that lists the printers, and the icon.
use ipp_printer_app.Base.{List, String, [], if◌then◌else◌, map, ℕ, ◌=ˢ◌, ◌||◌, ◌∷◌}
use ipp_printer_app.Printer.{PrinterRecord, display_label, printer_uri}
use ipp_printer_app.Texts.{concat, show}
use ipp_printer_app.Server.{AppState}
use ipp_printer_app.Server.MediaForm.{Page, http_ok}

unfoldable pub index_row : AppState → PrinterRecord → String
unfolding printer_uri
index_row st p = concat (
    "<li><b>"
    ∷ display_label p.config
    ∷ "</b> (<code>"
    ∷ p.config.name
    ∷ "</code>) — <code>"
    ∷ printer_uri p.config st.host st.port
    ∷ "</code> — device <code>"
    ∷ p.config.device_uri
    ∷ "</code> — <a href=\"/media/"
    ∷ p.config.name
    ∷ "\">media</a></li>"
    ∷ [])

unfoldable pub index_handler : AppState → Page
unfolding index_row show
index_handler st = (
  http_ok,
  concat (
      "<!DOCTYPE html><html><head><title>ipp-printer-app</title></head><body><h1>ipp-printer-app</h1><ul>"
      ∷ concat (map (index_row st) st.printers)
      ∷ "</ul><p>Register with CUPS: <code>lpadmin -p NAME -E -v ipp://"
      ∷ (if st.host =ˢ "" || (st.host =ˢ "0.0.0.0" || st.host =ˢ "::")
          then "localhost"
          else st.host)
      ∷ ":"
      ∷ show st.port
      ∷ "/ipp/print/NAME -m everywhere</code></p></body></html>"
      ∷ []),
)

-- The bytes that `icon_handler` serves as `image/png`.
abbrev pub icon_png : List ℕ
icon_png =
    137 ∷ 80 ∷ 78 ∷ 71 ∷ 13 ∷ 10 ∷ 26 ∷ 10 ∷ 0 ∷ 0 ∷ 0 ∷ 13 ∷ 73 ∷ 72 ∷ 68 ∷ 82 ∷ 0 ∷ 0 ∷ 0 ∷ 1 ∷ 0
    ∷ 0 ∷ 0 ∷ 1 ∷ 8 ∷ 6 ∷ 0 ∷ 0 ∷ 0 ∷ 31 ∷ 21 ∷ 196 ∷ 137 ∷ 0 ∷ 0 ∷ 0 ∷ 13 ∷ 73 ∷ 68 ∷ 65 ∷ 84 ∷ 120
    ∷ 156 ∷ 98 ∷ 0 ∷ 1 ∷ 0 ∷ 0 ∷ 5 ∷ 0 ∷ 1 ∷ 13 ∷ 10 ∷ 45 ∷ 180 ∷ 0 ∷ 0 ∷ 0 ∷ 0 ∷ 73 ∷ 69 ∷ 78 ∷ 68
    ∷ 174 ∷ 66 ∷ 96 ∷ 130 ∷ []

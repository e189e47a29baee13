-- ===== src/Tests/Media.antt =====
-- Checks of printer configurations, flags and attributes.
use ipp_printer_app.Base.{
  String, none, is_nil, [], ◌∷◌, List, All, arith, if◌then◌else◌, refl, some, ◌=ˢ◌, ◌||◌, ◌≡◌,
}
use ipp_printer_app.Base.Int.{pos}
use ipp_printer_app.Flags.{ipp_keywords}
use ipp_printer_app.Flags.Keywords.{reasons_of, reasons_of-ipp_keywords}
use ipp_printer_app.Device.{ReadyMedia}
use ipp_printer_app.Printer.{first, learn_media}
use ipp_printer_app.Printer.Positions.{count_name}
use ipp_printer_app.Printer.Media.{count_name-learn_media}
use ipp_printer_app.Ipp.{
  contains_name, Group, attr, keyword, operation_attributes, printer_attributes,
}
use ipp_printer_app.Attributes.{filter_requested}
use ipp_printer_app.Attributes.Filter.{lookup, printer_attrs, other_groups, lookup-filter_requested}
use ipp_printer_app.Attributes.Clock.{datetime_utc}
use ipp_printer_app.Attributes.Clock.Civil.{IsDateTime, unix_time, unix_time-datetime_utc}
use ipp_printer_app.Attributes.Media.{Row, media_rows}
use ipp_printer_app.Attributes.Media.Margins.{IsSupported, media_rows-IsSupported}
use ipp_printer_app.Server.Request.{job_id_of_uri}
use ipp_printer_app.Attributes.Jobs.{job_uri}
use ipp_printer_app.Server.Request.JobUri.{job_id_of_uri-job_uri}
use ipp_printer_app.Tests.{labels}

abbrev wide : ReadyMedia
wide = record { name = "om_wide_60x40mm"; size_hmm = (pos 6000, pos 4000); media_type = "labels" }

reasons_of-ipp_keywords_example : reasons_of (ipp_keywords 0x880) ≡ 0x880
reasons_of-ipp_keywords_example = reasons_of-ipp_keywords 0x880 (omega arith)

count_name-learn_media_example :
    (first (learn_media wide labels).media_names ≡ some "om_wide_60x40mm")
    × (count_name "om_small_40x30mm" (learn_media wide labels).media_names ≡ (
        if "om_small_40x30mm" =ˢ "om_wide_60x40mm"
        then 1
        else count_name "om_small_40x30mm" labels.media_names))
count_name-learn_media_example = count_name-learn_media wide labels "om_small_40x30mm" (omega arith)

unix_time-datetime_utc_example :
    IsDateTime (datetime_utc (pos 1709210096))
    × (unix_time (datetime_utc (pos 1709210096)) ≡ 1709210096)
unix_time-datetime_utc_example = unix_time-datetime_utc 1709210096 (omega arith)

media_rows-IsSupported_example : All (λ (row : Row). IsSupported labels row.1) (media_rows labels)
media_rows-IsSupported_example = media_rows-IsSupported labels refl

job_id_of_uri-job_uri_example :
    job_id_of_uri (job_uri "ipp://localhost:8631/ipp/print/labels" 42) ≡ some 42
job_id_of_uri-job_uri_example =
    job_id_of_uri-job_uri "ipp://localhost:8631/ipp/print/labels" 42 (omega arith)

abbrev groups : List Group
groups =
    record { tag = operation_attributes; attributes = [] }
    ∷ record {
      tag = printer_attributes;
      attributes = attr "printer-name" (keyword "a") ∷ attr "printer-info" (keyword "b") ∷ [];
    }
    ∷ []

abbrev wanted : List String
wanted = "printer-name" ∷ []

lookup-filter_requested_example :
    (lookup "printer-info" (printer_attrs (filter_requested (some wanted) groups)) ≡ (
      if is_nil wanted || (contains_name "all" wanted || contains_name "printer-info" wanted)
      then lookup "printer-info" (printer_attrs groups)
      else none))
    × (other_groups (filter_requested (some wanted) groups) ≡ other_groups groups)
lookup-filter_requested_example = lookup-filter_requested wanted "printer-info" groups

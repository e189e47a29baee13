-- ===== src/Server/Dispatch/Advertised.antt =====
-- src/server.rs and src/attributes.rs: the operations that the printer advertises and those that it performs.
use ipp_printer_app.Base.{Bool, Option, [], any, none, some, true, ℕ, ◌==◌, ◌≡◌}
use ipp_printer_app.Ipp
use ipp_printer_app.Ipp.{IppCrate, Operation}
use ipp_printer_app.Attributes.Printer.Static.{operations_supported}
use ipp_printer_app.Server.{AppState}
use ipp_printer_app.Server.Handler.{Reply}
use ipp_printer_app.Server.Dispatch.Frame.{is_refusal}

-- The codes of RFC 8011 for the operations that the handler matches on.
abbrev pub code_of : Operation → Option ℕ
code_of Ipp.print_job = some 2
code_of Ipp.validate_job = some 4
code_of Ipp.create_job = some 5
code_of Ipp.send_document = some 6
code_of Ipp.cancel_job = some 8
code_of Ipp.get_job_attributes = some 9
code_of Ipp.get_jobs = some 10
code_of Ipp.get_printer_attributes = some 11
code_of (Ipp.other_operation n) = none

abbrev pub agrees : Option ℕ → ℕ → Bool
agrees none c = true
agrees (some d) c = c == d

abbrev pub agrees_if_some : Option Operation → ℕ → Bool
agrees_if_some none c = true
agrees_if_some (some op) c = agrees (code_of op) c

-- The crate gives the operation of that code, or none.
abbrev pub knows : IppCrate → ℕ → Bool
knows crate c = agrees_if_some (crate.from_u16 c) c

abbrev pub is_supported : ℕ → Bool
is_supported c = any (λ d. d == c) operations_supported

-- An operation is refused: HTTP status 400, no change, no worker.
abbrev pub IsRefused : AppState → Reply → Type 0
IsRefused st r = (is_refusal r.answer ≡ true) × ((r.state ≡ st) × (r.spawned ≡ []))

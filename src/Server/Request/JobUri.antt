-- ===== src/Server/Request/JobUri.antt =====
-- src/server.rs, `extract_job_id`: that the job URIs of src/attributes.rs are read back.
use ipp_printer_app.Base.{
  sym, ◌∙◌, Char, List, String, [], any, ap, arith, false, refl, some, ℕ, ◌++◌, ◌<◌, ◌||◌, ◌∷◌, ◌≡◌,
}
use mathlib.Core.List.{append-nil, append_assoc}
use ipp_printer_app.Texts.{chars, from_chars, is_char, digits, show, after_last}
use ipp_printer_app.Texts.Chars.{chars-append, chars-from_chars}
use ipp_printer_app.Texts.Decimal.{parse_chars-digits, digits-no_slash}
use ipp_printer_app.Attributes.Jobs.{job_uri}
use ipp_printer_app.Server.Request.{job_id_of_uri}

any-slash :
    (c : ℕ) (xs ys : List Char)
    → any (is_char c) (xs ++ ys) ≡ (any (is_char c) xs || any (is_char c) ys)
any-slash c [] ys = refl
any-slash c (x ∷ xs) ys = ground (arith, any-slash c xs ys)

abbrev slash : Char
slash = "/"

abbrev job : List Char
job = chars "/job"

chars-job_uri :
    (printer_uri : String) (id : ℕ)
    → chars (job_uri printer_uri id) ≡ (chars printer_uri ++ job) ++ slash ∷ digits 20 id []
unfolding job_uri show
chars-job_uri printer_uri id =
    chars-append printer_uri _
    ∙ ap (λ t. chars printer_uri ++ t)
        (chars-append "/job/" _
          ∙ ap (λ t. job ++ slash ∷ t)
              (chars-append (from_chars (digits 20 id [])) "" ∙ append-nil _ ∙ chars-from_chars _))
    ∙ sym (append_assoc (chars printer_uri) job (slash ∷ digits 20 id []))

-- What precedes a `/` does not count, if no other follows.
after_last-append :
    (xs ys : List Char) → any (is_char b'/') ys ≡ false → after_last b'/' (xs ++ slash ∷ ys) ≡ ys
unfolding after_last
after_last-append [] ys h = rw h refl
after_last-append (x ∷ xs) ys h =
    rw (any-slash b'/' xs (slash ∷ ys)) (ground (arith, after_last-append xs ys h))

-- A job's URI, as Print-Job, Create-Job, Get-Jobs and Get-Job-Attributes give it, is read back to the job's id,
-- whatever the printer's URI is.
pub job_id_of_uri-job_uri :
    (printer_uri : String) (id : ℕ)
    → id < 4294967296
    → job_id_of_uri (job_uri printer_uri id) ≡ some id
unfolding job_id_of_uri
job_id_of_uri-job_uri printer_uri id small =
    rw
      (
        chars-job_uri printer_uri id,
        after_last-append (chars printer_uri ++ job) (digits 20 id []) (digits-no_slash id),
      )
      (parse_chars-digits id small)

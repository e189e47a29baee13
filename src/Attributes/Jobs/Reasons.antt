-- ===== src/Attributes/Jobs/Reasons.antt =====
-- src/attributes.rs: what a client reads off `job-state-reasons`.
use ipp_printer_app.Base.{Bool, arith, false, not, true, ◌&&◌, ◌||◌, ◌≡◌}
use ipp_printer_app.Flags.{contains}
use ipp_printer_app.Flags.Reason
use ipp_printer_app.Ipp.{contains_name}
use ipp_printer_app.Job.{JobRecord, JobState, canceled, completed, aborted}
use ipp_printer_app.Attributes.Jobs.{job_state_reason_keywords}

abbrev pub is_quiet : JobState → Bool
is_quiet canceled = false
is_quiet completed = false
is_quiet aborted = false
is_quiet _ = true

abbrev pub is_aborted : JobState → Bool
is_aborted aborted = true
is_aborted _ = false

-- A job is reported with no reason, "none", exactly when it is in no terminal state and its record has none of
-- the three conditions; otherwise some other keyword is listed and "none" is not.
pub none_reason_iff :
    (job : JobRecord)
    → contains_name "none" (job_state_reason_keywords job) ≡ (
        is_quiet job.state
        && (not (contains job.reasons Reason.media_empty)
            && (not (contains job.reasons Reason.media_jam)
                && not (contains job.reasons Reason.offline))))
unfolding job_state_reason_keywords
none_reason_iff job = ground arith

-- "aborted-by-system" is listed exactly for a jam, and for an aborted job whose record has neither empty media
-- nor an offline printer as its cause.
pub aborted_reason_iff :
    (job : JobRecord)
    → contains_name "aborted-by-system" (job_state_reason_keywords job) ≡ (
        contains job.reasons Reason.media_jam
        || (is_aborted job.state
            && (not (contains job.reasons Reason.media_empty)
                && not (contains job.reasons Reason.offline))))
unfolding job_state_reason_keywords
aborted_reason_iff job = ground arith

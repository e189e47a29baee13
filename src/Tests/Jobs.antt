-- ===== src/Tests/Jobs.antt =====
-- Checks of the job registry.
use ipp_printer_app.Base.{some, List, [], arith, refl, true, ◌∷◌, ◌≡◌}
use ipp_printer_app.Base.Int.{pos}
use mathlib.Core.Option
use ipp_printer_app.Job.{
  JobRecord, JobRegistry, new, create, get, cancel, is_canceled, is_terminal, load_flag,
}
use ipp_printer_app.Job
use ipp_printer_app.Job.Invariant.{IsValid}
use ipp_printer_app.Job.History.{Op, creates, cancels, starts, completes, run, run-new-IsValid}
use ipp_printer_app.Job.Table.{JobView, table, table_run, no_jobs}
use ipp_printer_app.Job.Refinement.{run-table}
use ipp_printer_app.Tests.{one_job}

abbrev history : List Op
history =
    creates "labels" "ann" (pos 1)
    ∷ starts 1 (pos 2)
    ∷ creates "labels" "bob" (pos 3)
    ∷ cancels 2 (pos 4)
    ∷ completes 1 (pos 5)
    ∷ []

history-IsValid : IsValid (run new history)
history-IsValid = run-new-IsValid history (omega arith)

run-table_example : table (run new history) ≡ table_run history no_jobs
run-table_example = run-table history (omega arith)

-- Job 2 was canceled before its worker began.
second_entry :
    Option.map (λ (v : JobView). v.raised) ((table (run new history)).entry 2) ≡ some true
unfolding run new get is_canceled Job.set_state cancel create
second_entry = refl

canceled_job : JobRegistry
canceled_job = (cancel one_job 1 (pos 9)).0

flag_up : load_flag 0 canceled_job ≡ true
unfolding canceled_job cancel Job.cancel_found
flag_up = refl

-- ===== src/Server/Worker/Interleaving.antt =====
-- src/server.rs, `spawn_print_worker`: what other tasks may do between the steps of the task.
use ipp_printer_app.Base.{arith, some, true, ℕ, ◌∙◌, ◌≡◌, ◌≢◌}
use ipp_printer_app.Job.{
  JobRecord, JobId, JobRegistry, SystemTime, is_canceled, set_state, set_failure, cancel, create,
  canceled, get, load_flag,
}
use ipp_printer_app.Job
use ipp_printer_app.Job.History.{Op, creates, cancels, starts, holds, completes, fails, apply}
use ipp_printer_app.Job.Invariant.{HasRoom, IsValid}
use ipp_printer_app.Job.Views.{
  is_over, flag_of, is_over-set_state, flag_of-set_state, is_over-set_failure, flag_of-set_failure,
  is_over-cancel, flag_of-cancel, is_over-create, flag_of-create,
}
use ipp_printer_app.Printer.{PrinterRegistry}
use ipp_printer_app.Server.{AppState}
use ipp_printer_app.Server.Worker.{Worker, Input, step}
use ipp_printer_app.State.{Disk}

-- What other tasks may do to the registry while a worker runs job `id`: create and cancel any job, and drive
-- other jobs.
abbrev pub Permitted : JobId → Op → Type 0
Permitted id (creates name user now) = Unit
Permitted id (cancels k now) = Unit
Permitted id (starts k now) = k ≢ id
Permitted id (holds k now) = k ≢ id
Permitted id (completes k now) = k ≢ id
Permitted id (fails k reasons message now) = k ≢ id

-- One step of another task: a registry call, or any change of the printers and of the file.
pub data Others (id : JobId) (st : AppState) : AppState → Type 0 where
  registry :
      (op : Op)
      → Permitted id op
      → HasRoom st.jobs
      → Others id st (record st { jobs = apply op st.jobs })
  elsewhere :
      (ps : PrinterRegistry) (d : Disk) → Others id st (record st { printers = ps; disk = d })

-- The interleavings of a worker with other tasks.
pub data Run (c : Worker × AppState) : Worker × AppState → Type 0 where
  here : Run c c
  own_step : {d : Worker × AppState} → Run c d → (i : Input) → Run c (step i d)
  other_step :
      {d : Worker × AppState} {st : AppState} → Run c d → Others d.0.job.id d.1 st → Run c (d.0, st)

-- A registry call of another task keeps the job over, and its flag where it was.
pub is_over-apply :
    (op : Op) (id : JobId) (r : JobRegistry)
    → Permitted id op
    → IsValid r
    → is_over r id ≡ true
    → is_over (apply op r) id ≡ true
unfolding apply
is_over-apply (creates name user now) id r p v h = is_over-create r id name user now v h
is_over-apply (cancels k now) id r p v h = ground (arith, is_over-cancel r id k now)
is_over-apply (starts k now) id r p v h =
    ground (arith, is_over-set_state r id k Job.processing now)
is_over-apply (holds k now) id r p v h =
    ground (arith, is_over-set_state r id k Job.processing_stopped now)
is_over-apply (completes k now) id r p v h =
    ground (arith, is_over-set_state r id k Job.completed now)
is_over-apply (fails k reasons message now) id r p v h =
    ground (arith, is_over-set_failure r id k reasons message now)

pub flag_of-apply :
    (op : Op) (id a : ℕ) (r : JobRegistry)
    → IsValid r
    → flag_of r id ≡ some a
    → flag_of (apply op r) id ≡ some a
unfolding apply
flag_of-apply (creates name user now) id a r v h = flag_of-create r id name user now a v h
flag_of-apply (cancels k now) id a r v h = flag_of-cancel r id k now ∙ h
flag_of-apply (starts k now) id a r v h = flag_of-set_state r id k Job.processing now ∙ h
flag_of-apply (holds k now) id a r v h = flag_of-set_state r id k Job.processing_stopped now ∙ h
flag_of-apply (completes k now) id a r v h = flag_of-set_state r id k Job.completed now ∙ h
flag_of-apply (fails k reasons message now) id a r v h =
    flag_of-set_failure r id k reasons message now ∙ h

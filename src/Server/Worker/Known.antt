-- ===== src/Server/Worker/Known.antt =====
-- src/server.rs, `spawn_print_worker`: what is known of its job at each point of the task.
use ipp_printer_app.Base.{
  String, refl, if◌then◌else◌, false, Bool, arith, inl, inr, some, true, ℕ, ◌≡◌, ◌⊎◌,
}
use ipp_printer_app.Flags.Reason.{PrinterReason}
use ipp_printer_app.Job.{
  JobRecord, JobId, JobRegistry, SystemTime, is_canceled, set_state, set_failure, cancel, create,
  canceled, get, load_flag,
}
use ipp_printer_app.Job
use ipp_printer_app.Job.History.{Op, apply, load_flag-apply, apply-IsValid}
use ipp_printer_app.Job.Invariant.{IsValid}
use ipp_printer_app.Job.Views.{
  is_over, flag_of, is_over-set_state, is_over-set_failure, is_over-cancel,
}
use ipp_printer_app.Server.{AppState}
use ipp_printer_app.Server.Worker.{Phase, after_loop, save, write_out, finished, Worker}
use ipp_printer_app.Server.Worker.Interleaving.{
  Others, Permitted, elsewhere, flag_of-apply, is_over-apply, registry,
}

-- What is known of the job at the points after the loop.
abbrev pub Known : Phase → JobRecord → JobRegistry → Type 0
Known after_loop j r = (is_canceled j r ≡ true) ⊎ (is_over r j.id ≡ true)
Known save j r = is_over r j.id ≡ true
Known (write_out s) j r = is_over r j.id ≡ true
Known finished j r = is_over r j.id ≡ true
Known _ j r = Unit

pub record Holds (w : Worker) (st : AppState) : Type 0 where
  pub valid : IsValid st.jobs
  pub own_flag : flag_of st.jobs w.job.id ≡ some w.job.cancel_flag
  pub known : Known w.phase w.job st.jobs

Known-apply :
    (op : Op) (p : Phase) (j : JobRecord) (r : JobRegistry)
    → Permitted j.id op
    → IsValid r
    → Known p j r
    → Known p j (apply op r)
unfolding is_canceled
Known-apply op after_loop j r allowed v (inl up) = inl (load_flag-apply op r j.cancel_flag up)
Known-apply op after_loop j r allowed v (inr over) = inr (is_over-apply op j.id r allowed v over)
Known-apply op save j r allowed v over = is_over-apply op j.id r allowed v over
Known-apply op (write_out s) j r allowed v over = is_over-apply op j.id r allowed v over
Known-apply op finished j r allowed v over = is_over-apply op j.id r allowed v over
Known-apply op _ j r allowed v k = tt

pub Others-Holds :
    {w : Worker} {st st' : AppState} → Others w.job.id st st' → Holds w st → Holds w st'
Others-Holds {w} {st} (registry op allowed room) h = record {
  valid = apply-IsValid op st.jobs h.valid room;
  own_flag = flag_of-apply op w.job.id w.job.cancel_flag st.jobs h.valid h.own_flag;
  known = Known-apply op w.phase w.job st.jobs allowed h.valid h.known;
}
Others-Holds (elsewhere ps d) h = record { valid = h.valid; own_flag = h.own_flag; known = h.known }

-- A branch on the flag.
pub choose-Holds :
    (b : Bool) (w u : Worker) (st : AppState)
    → (b ≡ true → Holds w st)
    → (b ≡ false → Holds u st)
    → Holds (if b then w else u) st
choose-Holds true w u st yes_ no_ = yes_ refl
choose-Holds false w u st yes_ no_ = no_ refl

pub set_over :
    (r : JobRegistry) (id a : ℕ) (s : Job.JobState) (now : SystemTime)
    → Job.is_terminal s ≡ true
    → flag_of r id ≡ some a
    → is_over (set_state r id s now) id ≡ true
set_over r id a s now over mine = ground (arith, is_over-set_state r id id s now)

pub fail_over :
    (r : JobRegistry) (id a : ℕ) (reasons : PrinterReason) (message : String) (now : SystemTime)
    → flag_of r id ≡ some a
    → is_over (set_failure r id reasons message now) id ≡ true
fail_over r id a reasons message now mine =
    ground (arith, is_over-set_failure r id id reasons message now)

pub cancel_over :
    (r : JobRegistry) (id a : ℕ) (now : SystemTime)
    → flag_of r id ≡ some a
    → is_over (cancel r id now).0 id ≡ true
cancel_over r id a now mine = ground (arith, is_over-cancel r id id now)

-- ===== src/System/Workers.antt =====
-- src/server.rs, `spawn_print_worker`: what a step of one of many tasks keeps of all of them.
use ipp_printer_app.Base.{
  false, Bool, Bool-cases, List, Option, [], any, arith, inl, inr, none, refl, some, sym, true,
  ◌==◌, ◌∷◌, ◌≡◌,
}
use mathlib.Core.Path.{subst}
use ipp_printer_app.Job.{JobId, JobRegistry, load_flag}
use ipp_printer_app.Job.Invariant.{IsValid, HasRoom}
use ipp_printer_app.Job.Views.{flag_of, is_present-flag_of}
use ipp_printer_app.Job.History.{Op, apply-IsValid}
use ipp_printer_app.Server.{AppState}
use ipp_printer_app.Server.Worker.{Phase, mark_printer, mark_job, Worker, Input, act, step}
use ipp_printer_app.Server.Worker.Terminal.{act-job}
use ipp_printer_app.System.Settling.{has_begun, begun-starts}
use ipp_printer_app.System.Driving.{is_driving, drives, has_started, op_at, apply_opt, jobs-act}
use ipp_printer_app.System.Evolving.{Evolves, refl-Evolves, apply-Evolves}

-- The registry has the job of the task with the task's flag, and out of `Pending` once the task has started it.
abbrev pub IsOwner : JobRegistry → Worker → Type 0
IsOwner r w =
    (flag_of r w.job.id ≡ some w.job.cancel_flag)
    × (has_started w.phase ≡ true → has_begun r w.job.id ≡ true)

pub IsOwner-Evolves : {r r' : JobRegistry} (w : Worker) → Evolves r r' → IsOwner r w → IsOwner r' w
IsOwner-Evolves w e (own, begun) =
    (e.owns w.job.id w.job.cancel_flag own, λ h. e.begins w.job.id (begun h))

is_driving_up :
    (p : Phase) (b c : Bool) → (b ≡ true → c ≡ true) → is_driving p b ≡ true → is_driving p c ≡ true
is_driving_up Phase.after_loop b c e h = e h
is_driving_up Phase.mark_printer b c e h = h
is_driving_up _ b c e h = h

pub drives-Evolves :
    {r r' : JobRegistry} (id : JobId) (w : Worker)
    → Evolves r r'
    → drives r id w ≡ true
    → drives r' id w ≡ true
drives-Evolves {r} {r'} id w e h =
    let mine : (w.job.id == id) ≡ true = ground arith in
    let driving : is_driving w.phase (load_flag w.job.cancel_flag r) ≡ true = ground arith in
    rw mine (
      is_driving_up w.phase (load_flag w.job.cancel_flag r) (load_flag w.job.cancel_flag r')
        (e.up w.job.cancel_flag) driving)

pub any-drives-Evolves :
    {r r' : JobRegistry} (id : JobId) (ws : List Worker)
    → Evolves r r'
    → any (drives r id) ws ≡ true
    → any (drives r' id) ws ≡ true
any-drives-Evolves id [] e h = h
any-drives-Evolves {r} id (w ∷ ws) e h = elim (Bool-cases (drives r id w)) [
  | inl hit ↦ rw (drives-Evolves id w e hit) refl
  | inr miss ↦
      let rest : any (drives r id) ws ≡ true = rw miss at h in
      ground (arith, any-drives-Evolves id ws e rest)
]

module _ (i : Input) (w : Worker) (st : AppState) (valid : IsValid st.jobs)
    (room : HasRoom st.jobs) where
  apply_opt-IsValid : (o : Option Op) → IsValid (apply_opt o st.jobs)
  apply_opt-IsValid none = valid
  apply_opt-IsValid (some op) = apply-IsValid op st.jobs valid room

  apply_opt-Evolves : (o : Option Op) → Evolves st.jobs (apply_opt o st.jobs)
  apply_opt-Evolves none = refl-Evolves st.jobs
  apply_opt-Evolves (some op) = apply-Evolves op st.jobs valid

  pub step-IsValid : IsValid (step i (w, st)).1.jobs
  unfolding step
  step-IsValid = subst IsValid (sym (jobs-act w.phase i w st)) (apply_opt-IsValid _)

  pub step-Evolves : Evolves st.jobs (step i (w, st)).1.jobs
  unfolding step
  step-Evolves =
      subst (λ r. Evolves st.jobs r) (sym (jobs-act w.phase i w st)) (apply_opt-Evolves _)

  -- The first access to the job starts it; before it there is only the access to the printer.
  first_start :
      (p : Phase)
      → flag_of st.jobs w.job.id ≡ some w.job.cancel_flag
      → has_started p ≡ false
      → has_started (act p i w st).0.phase ≡ true
      → has_begun (apply_opt (op_at p i.now w) st.jobs) w.job.id ≡ true
  unfolding act
  first_start mark_printer own early h = cc h
  first_start mark_job own early h =
      begun-starts st.jobs w.job.id i.now
        (is_present-flag_of st.jobs w.job.id w.job.cancel_flag own)
  first_start _ own early h = cc early

  started :
      (p : Phase)
      → flag_of st.jobs w.job.id ≡ some w.job.cancel_flag
      → (has_started p ≡ true → has_begun st.jobs w.job.id ≡ true)
      → has_started (act p i w st).0.phase ≡ true
      → has_begun (apply_opt (op_at p i.now w) st.jobs) w.job.id ≡ true
  started p own begun h = elim (Bool-cases (has_started p)) [
    | inl late ↦ (apply_opt-Evolves (op_at p i.now w)).begins w.job.id (begun late)
    | inr early ↦ first_start p own early h
  ]

  pub step-IsOwner : IsOwner st.jobs w → IsOwner (step i (w, st)).1.jobs (step i (w, st)).0
  unfolding step
  step-IsOwner (own, begun) =
      let same : (act w.phase i w st).0.job ≡ w.job = act-job w.phase i w st in
      let jobs = jobs-act w.phase i w st in
      let own' : flag_of (act w.phase i w st).1.jobs w.job.id ≡ some w.job.cancel_flag =
        step-Evolves.owns w.job.id w.job.cancel_flag own in
      rw same (
        own',
        λ h. subst (λ r. has_begun r w.job.id ≡ true) (sym jobs) (started w.phase own begun h),
      )

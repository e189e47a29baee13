-- ===== src/System/Invariant.antt =====
-- src/server.rs: the jobs and the print workers of a running server belong together.
use ipp_printer_app.Base.{
  All, All-append, All-map, Bool, Bool-cases, List, Option, String, [], all, any, arith, false, inl,
  inr, length, map, refl, some, suc, sym, true, zero, ℕ, ◌++◌, ◌+◌, ◌<◌, ◌||◌, ◌∷◌, ◌≡◌,
}
use mathlib.Core.Path.{subst}
use ipp_printer_app.Job.{JobId, JobRegistry, get}
use ipp_printer_app.Job.Invariant.{IsValid, HasRoom}
use ipp_printer_app.Job.Views.{flag_of}
use ipp_printer_app.Job.History.{Op, run, creations, run-IsValid}
use ipp_printer_app.Server.{AppState}
use ipp_printer_app.Server.Handler.{PrintTask}
use ipp_printer_app.Server.Worker.{Worker, Input, step, spawn_print_worker}
use ipp_printer_app.Server.Dispatch.Frame.{is_request_op}
use ipp_printer_app.System.{work_at}
use ipp_printer_app.System.Settling.{is_unsettled}
use ipp_printer_app.System.Driving.{drives, step-Kept}
use ipp_printer_app.System.Evolving.{Evolves, run-Evolves, run-unsettled}
use ipp_printer_app.System.Workers.{
  IsOwner, IsOwner-Evolves, drives-Evolves, any-drives-Evolves, step-IsValid, step-Evolves,
  step-IsOwner,
}
use ipp_printer_app.System.Spawned.{IsBacked}

-- The registry is well-formed, every worker owns its job, and every unsettled job is driven by some worker.
pub record IsSound (r : JobRegistry) (ws : List Worker) : Type 0 where
  pub valid : IsValid r
  pub owners : All (IsOwner r) ws
  pub driven : (id : JobId) → is_unsettled r id ≡ true → any (drives r id) ws ≡ true

-- What a step of one of the workers does to all of them.
record Advances (r : JobRegistry) (ws : List Worker) (r' : JobRegistry) (ws' : List Worker)
    : Type 0 where
  valid : IsValid r'
  evolves : Evolves r r'
  owners : All (IsOwner r) ws → All (IsOwner r') ws'
  driven :
      (id : JobId)
      → is_unsettled r' id ≡ true
      → (is_unsettled r id ≡ true → any (drives r id) ws ≡ true)
      → any (drives r' id) ws' ≡ true

any-or : (a b : Bool) → a ≡ false → (a || b) ≡ true → b ≡ true
any-or a b miss h = ground arith

-- One worker's step, the others standing still.
step-Advances :
    (i : Input) (w : Worker) (ws : List Worker) (st : AppState)
    → IsValid st.jobs
    → HasRoom st.jobs
    → Advances st.jobs (w ∷ ws) (step i (w, st)).1.jobs ((step i (w, st)).0 ∷ ws)
step-Advances i w ws st v room =
    let evolves : Evolves st.jobs (step i (w, st)).1.jobs = step-Evolves i w st v room in
    record {
      valid = step-IsValid i w st v room;
      evolves = evolves;
      owners = λ h.
          (step-IsOwner i w st v room h.0, All-map ws (λ x own. IsOwner-Evolves x evolves own) h.1);
      driven = λ id unsettled before. elim (step-Kept i w st v id unsettled) [
        | inl own ↦ rw own refl
        | inr (idle, was) ↦
            let others : any (drives st.jobs id) ws ≡ true =
              any-or (drives st.jobs id w) (any (drives st.jobs id) ws) idle (before was) in
            ground (arith, any-drives-Evolves id ws evolves others)
      ];
    }

still-Advances : (r : JobRegistry) (ws : List Worker) → IsValid r → Advances r ws r ws
still-Advances r ws v = record {
  valid = v;
  evolves = record { up = λ a h. h; owns = λ id a h. h; begins = λ id h. h };
  owners = λ h. h;
  driven = λ id h before. before h;
}

cons-Advances :
    {r r' : JobRegistry} {ws ws' : List Worker} (w : Worker)
    → Advances r ws r' ws'
    → Advances r (w ∷ ws) r' (w ∷ ws')
cons-Advances {r} {r'} {ws} {ws'} w a = record {
  valid = a.valid;
  evolves = a.evolves;
  owners = λ h. (IsOwner-Evolves w a.evolves h.0, a.owners h.1);
  driven = λ id unsettled before. elim (Bool-cases (drives r id w)) [
    | inl hit ↦ rw (drives-Evolves id w a.evolves hit) refl
    | inr miss ↦
        let rest : any (drives r' id) ws' ≡ true =
          a.driven id unsettled
            λ was. any-or (drives r id w) (any (drives r id) ws) miss (before was) in
        ground arith
  ];
}

work_at-Advances :
    (k : ℕ) (i : Input) (ws : List Worker) (st : AppState)
    → IsValid st.jobs
    → HasRoom st.jobs
    → Advances st.jobs ws (work_at k i ws st).1.jobs (work_at k i ws st).0
unfolding work_at
work_at-Advances k i [] st v room = still-Advances st.jobs [] v
work_at-Advances zero i (w ∷ ws) st v room = step-Advances i w ws st v room
work_at-Advances (suc k) i (w ∷ ws) st v room = cons-Advances w (work_at-Advances k i ws st v room)

pub work_at-IsSound :
    (k : ℕ) (i : Input) (ws : List Worker) (st : AppState)
    → HasRoom st.jobs
    → IsSound st.jobs ws
    → IsSound (work_at k i ws st).1.jobs (work_at k i ws st).0
work_at-IsSound k i ws st room sound =
    let a : Advances st.jobs ws (work_at k i ws st).1.jobs (work_at k i ws st).0 =
      work_at-Advances k i ws st sound.valid room in
    record {
      valid = a.valid;
      owners = a.owners sound.owners;
      driven = λ id h. a.driven id h (sound.driven id);
    }

any-append :
    {A : Type 0} (p : A → Bool) (xs ys : List A) → any p xs ≡ true → any p (xs ++ ys) ≡ true
any-append p [] ys h = cc h
any-append p (x ∷ xs) ys h = ground (arith, any-append p xs ys)

module _ (retry_ms : Option ℕ) where
  abbrev pub spawned_worker : PrintTask → Worker
  spawned_worker t = spawn_print_worker t.printer_name t.job retry_ms

  spawned-IsOwner :
      (st : AppState) (ts : List PrintTask)
      → All (IsBacked st) ts
      → All (IsOwner st.jobs) (map spawned_worker ts)
  unfolding spawn_print_worker
  spawned-IsOwner st [] h = tt
  spawned-IsOwner st (t ∷ ts) h =
      let found : get st.jobs t.job.id ≡ some t.job = h.0.0 in
      let own : flag_of st.jobs t.job.id ≡ some t.job.cancel_flag = rw found refl in
      ((own, λ e. cc e), spawned-IsOwner st ts h.1)

  -- Requests only create and cancel jobs, and start workers for jobs of the registry.
  pub serve-IsSound :
      (r : JobRegistry) (ws : List Worker) (name : String) (ops : List Op) (st : AppState)
      (ts : List PrintTask)
      → IsSound r ws
      → st.jobs ≡ run r ops
      → all (is_request_op name) ops ≡ true
      → length r.jobs + creations ops + 2 < 4294967296
      → All (IsBacked st) ts
      → IsSound st.jobs (ws ++ map spawned_worker ts)
  serve-IsSound r ws name ops st ts sound same allowed room backed =
      let evolves : Evolves r st.jobs =
        subst (λ q. Evolves r q) (sym same) (run-Evolves r ops sound.valid room) in
      record {
        valid = subst IsValid (sym same) (run-IsValid r ops sound.valid room);
        owners =
            All-append (IsOwner st.jobs) ws (map spawned_worker ts)
              (All-map ws (λ w own. IsOwner-Evolves w evolves own) sound.owners)
              (spawned-IsOwner st ts backed);
        driven = λ id h.
            let was : is_unsettled r id ≡ true =
              run-unsettled name ops r id allowed sound.valid room
                (subst (λ q. is_unsettled q id ≡ true) same h) in
            any-append (drives st.jobs id) ws _
              (any-drives-Evolves id ws evolves (sound.driven id was));
      }

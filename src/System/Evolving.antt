-- ===== src/System/Evolving.antt =====
-- src/job.rs: what no operation of the job registry takes back.
use ipp_printer_app.Base.{List, String, [], all, arith, length, some, true, ℕ, ◌+◌, ◌<◌, ◌∷◌, ◌≡◌}
use ipp_printer_app.Job.{JobId, JobRegistry, load_flag}
use ipp_printer_app.Job.Invariant.{IsValid}
use ipp_printer_app.Job.Views.{flag_of}
use ipp_printer_app.Job.History.{
  Op, creates, cancels, apply, run, creations, apply-IsValid, load_flag-apply, length-apply,
}
use ipp_printer_app.Server.Worker.Interleaving.{flag_of-apply}
use ipp_printer_app.Server.Dispatch.Frame.{is_request_op}
use ipp_printer_app.System.Settling.{is_unsettled, has_begun, unsettled-apply, begun-apply}

-- Raised flags stay up, jobs keep their flags, and what has left `Pending` has left it for good.
pub record Evolves (r r' : JobRegistry) : Type 0 where
  pub up : (a : ℕ) → load_flag a r ≡ true → load_flag a r' ≡ true
  pub owns : (id : JobId) (a : ℕ) → flag_of r id ≡ some a → flag_of r' id ≡ some a
  pub begins : (id : JobId) → has_begun r id ≡ true → has_begun r' id ≡ true

pub refl-Evolves : (r : JobRegistry) → Evolves r r
refl-Evolves r = record { up = λ a h. h; owns = λ id a h. h; begins = λ id h. h }

trans-Evolves : {r s t : JobRegistry} → Evolves r s → Evolves s t → Evolves r t
trans-Evolves p q = record {
  up = λ a h. q.up a (p.up a h);
  owns = λ id a h. q.owns id a (p.owns id a h);
  begins = λ id h. q.begins id (p.begins id h);
}

pub apply-Evolves : (op : Op) (r : JobRegistry) → IsValid r → Evolves r (apply op r)
apply-Evolves op r v = record {
  up = load_flag-apply op r;
  owns = λ id a h. flag_of-apply op id a r v h;
  begins = λ id h. begun-apply op r id v h;
}

pub length-run :
    (r : JobRegistry) (ops : List Op) → length (run r ops).jobs ≡ length r.jobs + creations ops
unfolding run
length-run r [] = omega arith
length-run r (op ∷ ops) = omega (arith, length-run (apply op r) ops, length-apply op r)

pub run-Evolves :
    (r : JobRegistry) (ops : List Op)
    → IsValid r
    → length r.jobs + creations ops + 2 < 4294967296
    → Evolves r (run r ops)
unfolding run
run-Evolves r [] v room = refl-Evolves r
run-Evolves r (op ∷ ops) v room = trans-Evolves (apply-Evolves op r v) (
    run-Evolves (apply op r) ops (apply-IsValid op r v (omega arith))
      (omega (arith, length-apply op r)))

request_op-unsettled :
    (name : String) (op : Op) (r : JobRegistry) (id : JobId)
    → is_request_op name op ≡ true
    → IsValid r
    → is_unsettled (apply op r) id ≡ true
    → is_unsettled r id ≡ true
request_op-unsettled name (creates printer user now) r id allowed v h =
    unsettled-apply (creates printer user now) r id v h
request_op-unsettled name (cancels k now) r id allowed v h =
    ground (arith, unsettled-apply (cancels k now) r id v h)
request_op-unsettled name _ r id allowed v h = cc allowed

-- A request starts no job.
pub run-unsettled :
    (name : String) (ops : List Op) (r : JobRegistry) (id : JobId)
    → all (is_request_op name) ops ≡ true
    → IsValid r
    → length r.jobs + creations ops + 2 < 4294967296
    → is_unsettled (run r ops) id ≡ true
    → is_unsettled r id ≡ true
unfolding run
run-unsettled name [] r id allowed v room h = h
run-unsettled name (op ∷ ops) r id allowed v room h =
    request_op-unsettled name op r id (ground arith) v (
      run-unsettled name ops (apply op r) id (ground arith) (apply-IsValid op r v (omega arith))
        (omega (arith, length-apply op r)) h)

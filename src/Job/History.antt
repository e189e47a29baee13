-- ===== src/Job/History.antt =====
-- src/job.rs: any sequence of the registry operations that the server makes.
use ipp_printer_app.Base.{
  ap, inr, sym, inl, find, Option-cases, Bool-cases, List, String, [], arith, length, length-append,
  length-update_first, not, some, true, ℕ, ◌&&◌, ◌+◌, ◌<◌, ◌==◌, ◌||◌, ◌∙◌, ◌∷◌, ◌≡◌,
}
use ipp_printer_app.Flags.Reason.{PrinterReason}
use ipp_printer_app.Job.{
  JobId, SystemTime, JobRecord, JobRegistry, processing, processing_stopped, completed, is_terminal,
  load_flag, has_id, get, is_canceled, new, create, fresh_record, set_state, set_failure,
  cancel_record, cancel_found, cancel,
}
use mathlib.Core.Path.{subst}
use ipp_printer_app.Job.Find.{find-has_id}
use ipp_printer_app.Job.Ids.{find-Numbered_flag}
use ipp_printer_app.Job.Canceled.{cancel-IsValid}
use ipp_printer_app.Job.Invariant.{
  HasRoom, IsValid, new-IsValid, create-IsValid, set_state-IsValid, set_failure-IsValid,
  get_or-set_self, get_or-set_other, get_or-set_mono, get_or-append,
}

-- The calls that src/server.rs makes: a request creates or cancels, a worker starts, holds,
-- completes or fails a job.
pub data Op : Type 0 where
  creates : String → String → SystemTime → Op
  cancels : JobId → SystemTime → Op
  starts holds completes : JobId → SystemTime → Op
  fails : JobId → PrinterReason → String → SystemTime → Op

unfoldable pub apply : Op → JobRegistry → JobRegistry
apply (creates name user now) r = (create r name user now).0
apply (cancels id now) r = (cancel r id now).0
apply (starts id now) r = set_state r id processing now
apply (holds id now) r = set_state r id processing_stopped now
apply (completes id now) r = set_state r id completed now
apply (fails id reasons message now) r = set_failure r id reasons message now

unfoldable pub run : JobRegistry → List Op → JobRegistry
unfolding apply
run r [] = r
run r (op ∷ ops) = run (apply op r) ops

abbrev pub is_create : Op → ℕ
is_create (creates name user now) = 1
is_create _ = 0

abbrev pub creations : List Op → ℕ
creations [] = 0
creations (op ∷ ops) = is_create op + creations ops

length-cancel_found :
    (r : JobRegistry) (j : JobRecord) (now : SystemTime)
    → length (cancel_found r j now).0.jobs ≡ length r.jobs
unfolding cancel_found
length-cancel_found r j now =
    ground (arith, length-update_first (has_id j.id) (cancel_record now) r.jobs)

length-cancel :
    (r : JobRegistry) (id : JobId) (now : SystemTime)
    → length (cancel r id now).0.jobs ≡ length r.jobs
unfolding cancel
length-cancel r id now = elim (Option-cases (find (has_id id) r.jobs)) [
  | inl missing ↦ rw (missing, cancel)
  | inr (j, found) ↦ rw (found, cancel) (length-cancel_found r j now)
]

pub length-apply :
    (op : Op) (r : JobRegistry) → length (apply op r).jobs ≡ length r.jobs + is_create op
unfolding apply set_state set_failure create
length-apply (creates name user now) r = length-append r.jobs (fresh_record r name user now ∷ [])
length-apply (cancels id now) r = omega (arith, length-cancel r id now)
length-apply (starts id now) r = omega (arith, length-update_first {0} (has_id id) _ r.jobs)
length-apply (holds id now) r = omega (arith, length-update_first {0} (has_id id) _ r.jobs)
length-apply (completes id now) r = omega (arith, length-update_first {0} (has_id id) _ r.jobs)
length-apply (fails id reasons message now) r =
    omega (arith, length-update_first {0} (has_id id) _ r.jobs)

pub apply-IsValid : (op : Op) (r : JobRegistry) → IsValid r → HasRoom r → IsValid (apply op r)
unfolding apply
apply-IsValid (creates name user now) r v room = create-IsValid r name user now v room
apply-IsValid (cancels id now) r v room = cancel-IsValid r id now v
apply-IsValid (starts id now) r v room = set_state-IsValid r id processing now (λ e. cc) v
apply-IsValid (holds id now) r v room = set_state-IsValid r id processing_stopped now (λ e. cc) v
apply-IsValid (completes id now) r v room = set_state-IsValid r id completed now (λ e. cc) v
apply-IsValid (fails id reasons message now) r v room =
    set_failure-IsValid r id reasons message now v

pub run-IsValid :
    (r : JobRegistry) (ops : List Op)
    → IsValid r
    → length r.jobs + creations ops + 2 < 4294967296
    → IsValid (run r ops)
unfolding run
run-IsValid r [] v room = v
run-IsValid r (op ∷ ops) v room =
    run-IsValid (apply op r) ops (apply-IsValid op r v (omega arith))
      (omega (arith, length-apply op r))

-- After any sequence of registry calls with fewer than 2^32 - 2 creations: the jobs are numbered 1,
-- 2, ... in creation order, each with a cancel flag of its own, a terminal job has its completion
-- time, and the flag of every canceled job is up.
pub run-new-IsValid : (ops : List Op) → creations ops + 2 < 4294967296 → IsValid (run new ops)
unfolding new
run-new-IsValid ops room = run-IsValid new ops new-IsValid (omega arith)

flag-cancel_found :
    (r : JobRegistry) (j k : JobRecord) (now : SystemTime)
    → IsValid r
    → get r j.id ≡ some j
    → get r k.id ≡ some k
    → is_canceled k (cancel_found r j now).0
      ≡ (is_canceled k r || (j.id == k.id && not (is_terminal k.state)))
unfolding cancel_found is_canceled get
flag-cancel_found r j k now v fj fk =
    let (cell_j, bound_j, _) = find-Numbered_flag 1 j.id r.jobs j v.numbered fj in
    let (cell_k, _, _) = find-Numbered_flag 1 k.id r.jobs k v.numbered fk in
    elim (Bool-cases (j.id == k.id)) [
      | inl one ↦
          let same : j.id ≡ k.id = ground arith in
          let both : some j ≡ some k = sym fj ∙ ap (λ t. find (has_id t) r.jobs) same ∙ fk in
          let cell : j.cancel_flag < length r.flags = omega (arith, v.cells) in
          ground (arith, get_or-set_self r.flags j.cancel_flag cell)
      | inr two ↦ ground (arith, get_or-set_other r.flags j.cancel_flag k.cancel_flag)
    ]

-- A cancel request raises the flag of the job that it names, if that job is not in a terminal state, and
-- no flag of another job.
pub is_canceled-cancel :
    (r : JobRegistry) (id : JobId) (k : JobRecord) (now : SystemTime)
    → IsValid r
    → get r k.id ≡ some k
    → is_canceled k (cancel r id now).0
      ≡ (is_canceled k r || (id == k.id && not (is_terminal k.state)))
unfolding cancel
is_canceled-cancel r id k now v fk = elim (Option-cases (find (has_id id) r.jobs)) [
  | inl missing ↦ unfold get in ground arith
  | inr (j, found) ↦
      let same : j.id ≡ id = find-has_id id r.jobs j found in
      let fj : get r j.id ≡ some j =
        unfold get in subst (λ t. find (has_id t) r.jobs ≡ some j) (sym same) found in
      let step : is_canceled k (cancel_found r j now).0
          ≡ (is_canceled k r || (j.id == k.id && not (is_terminal k.state))) =
        flag-cancel_found r j k now v fj fk in
      rw (found, cancel, ← same) step
]

pub load_flag-cancel :
    (r : JobRegistry) (id : JobId) (now : SystemTime) (a : ℕ)
    → load_flag a r ≡ true
    → load_flag a (cancel r id now).0 ≡ true
unfolding cancel cancel_found
load_flag-cancel r id now a h = elim (Option-cases (find (has_id id) r.jobs)) [
  | inl missing ↦ rw (missing, cancel) h
  | inr (j, found) ↦ ground (arith, get_or-set_mono r.flags j.cancel_flag a h)
]

-- No registry operation lowers a cancel flag.
pub load_flag-apply :
    (op : Op) (r : JobRegistry) (a : ℕ) → load_flag a r ≡ true → load_flag a (apply op r) ≡ true
unfolding apply set_state set_failure create
load_flag-apply (creates name user now) r a h = get_or-append r.flags a ∙ h
load_flag-apply (cancels id now) r a h = load_flag-cancel r id now a h
load_flag-apply _ r a h = h

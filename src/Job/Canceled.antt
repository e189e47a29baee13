-- ===== src/Job/Canceled.antt =====
-- src/job.rs, `cancel`: that it keeps the registry well-formed.
use ipp_printer_app.Base.{
  sym, inr, ◌==◌, inl, Bool-cases, Option-cases, length-set, some, find, All, Bool, List, [], arith,
  false, get_or, length-update_first, refl, set, true, update_first, ◌∷◌, ◌≡◌,
}
use mathlib.Core.Path.{subst}
use ipp_printer_app.Job.{
  JobId, SystemTime, JobRecord, JobRegistry, is_terminal, has_id, cancel_record, cancel_found,
  cancel,
}
use ipp_printer_app.Job.Find.{All-update_first, find-has_id}
use ipp_printer_app.Job.Ids.{Numbered-update_first, find-Numbered_flag}
use ipp_printer_app.Job.Invariant.{
  All-map, IsFlagged, IsFlagged-set, IsStamped, IsValid, get_or-set_self,
}

-- Raising the flag of the job that is rewritten keeps every canceled job flagged.
IsFlagged-cancel :
    (flags : List Bool) (j : JobRecord) (now : SystemTime) (js : List JobRecord)
    → get_or (set flags j.cancel_flag true) j.cancel_flag false ≡ true
    → All (IsFlagged flags) js
    → find (has_id j.id) js ≡ some j
    → All
        (IsFlagged (set flags j.cancel_flag true))
        (update_first (has_id j.id) (cancel_record now) js)
unfolding cancel_record
IsFlagged-cancel flags j now [] raised h e = tt
IsFlagged-cancel flags j now (x ∷ js) raised h e = elim (Bool-cases (x.id == j.id)) [
  | inl hit ↦
      let same : some x ≡ some j = rw hit at e in
      let cell : x.cancel_flag ≡ j.cancel_flag = ground arith in
      rw hit (
        (λ _. rw cell raised),
        All-map (IsFlagged flags) (IsFlagged (set flags j.cancel_flag true)) js
            (IsFlagged-set flags j.cancel_flag) h.1,
      )
  | inr miss ↦ rw miss (
    IsFlagged-set flags j.cancel_flag x h.0,
    IsFlagged-cancel flags j now js raised h.1 (rw miss at e),
  )
]

-- The cancel of a live job that `find` returned.
cancel_live-IsValid :
    (r : JobRegistry) (j : JobRecord) (now : SystemTime)
    → find (has_id j.id) r.jobs ≡ some j
    → IsValid r
    → IsValid (record r {
      jobs = update_first (has_id j.id) (cancel_record now) r.jobs;
      flags = set r.flags j.cancel_flag true;
    })
cancel_live-IsValid r j now found v = record {
  numbered =
      unfold cancel_record in
      Numbered-update_first 1 (has_id j.id) (cancel_record now) r.jobs (λ k. (refl, refl))
        v.numbered;
  next = omega (arith, v.next, length-update_first {0} (has_id j.id) (cancel_record now) r.jobs);
  cells = omega (
    arith,
    v.cells,
    length-set {0} r.flags j.cancel_flag true,
    length-update_first {0} (has_id j.id) (cancel_record now) r.jobs,
  );
  stamped =
      unfold cancel_record in
      All-update_first IsStamped (has_id j.id) (cancel_record now) r.jobs (λ k h e. refl) v.stamped;
  flagged =
      IsFlagged-cancel r.flags j now r.jobs
        (get_or-set_self r.flags j.cancel_flag
          (omega (arith, find-Numbered_flag 1 j.id r.jobs j v.numbered found, v.cells)))
        v.flagged found;
}

cancel_found-IsValid :
    (r : JobRegistry) (j : JobRecord) (now : SystemTime)
    → find (has_id j.id) r.jobs ≡ some j
    → IsValid r
    → IsValid (cancel_found r j now).0
unfolding cancel_found
cancel_found-IsValid r j now found v = elim (Bool-cases (is_terminal j.state)) [
  | inl over ↦ rw over v
  | inr live ↦ rw live (cancel_live-IsValid r j now found v)
]

pub cancel-IsValid :
    (r : JobRegistry) (id : JobId) (now : SystemTime) → IsValid r → IsValid (cancel r id now).0
unfolding cancel
cancel-IsValid r id now v = elim (Option-cases (find (has_id id) r.jobs)) [
  | inl missing ↦ rw (missing, cancel) v
  | inr (j, found) ↦
      let same : j.id ≡ id = find-has_id id r.jobs j found in
      rw (found, cancel)
        (cancel_found-IsValid r j now
          (subst (λ t. find (has_id t) r.jobs ≡ some j) (sym same) found) v)
]

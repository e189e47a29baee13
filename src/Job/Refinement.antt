-- ===== src/Job/Refinement.antt =====
-- src/job.rs: the registry does to its jobs what the table of Job.Table does to its entries.
use ipp_printer_app.Base.{
  ◌<◌, ◌+◌, not, inr, ◌||◌, inl, ◌∙◌, Option-cases, refl, Bool-cases, ap, List, String, [], arith,
  if◌then◌else◌, length, none, some, suc, true, ◌&&◌, ◌==◌, ◌∷◌, ◌≡◌,
}
use mathlib.Core.Option
use ipp_printer_app.Flags.Reason.{PrinterReason}
use ipp_printer_app.Job.{
  JobId, SystemTime, JobState, JobRecord, JobRegistry, processing, processing_stopped, completed,
  is_terminal, get, is_canceled, new, create, fresh_record, enter_state, set_state, fail_record,
  set_failure, cancel_record, cancel,
}
use ipp_printer_app.Job.Find.{find-has_id}
use ipp_printer_app.Job.Updates.{get-set_state, get-set_failure, get-cancel}
use ipp_printer_app.Job.Invariant.{IsValid, new-IsValid, get-create, get_or-append, get_or-end}
use ipp_printer_app.Job.History.{
  Op, creates, cancels, starts, holds, completes, fails, apply, run, creations, apply-IsValid,
  length-apply, is_canceled-cancel,
}
use ipp_printer_app.Job.Table.{
  JobTable, seen, view_of, view, table, fresh_view, enter_view, fail_view, cancel_view, table_op,
  table_run, no_jobs,
}

module _ (r : JobRegistry) (other : JobId) where
  view-set_state :
      (id : JobId) (s : JobState) (now : SystemTime)
      → view (set_state r id s now) other
        ≡ (if id == other then Option.map (enter_view s now) (view r other) else view r other)
  unfolding enter_state is_canceled set_state
  view-set_state id s now = ground (arith, get-set_state r id other s now)

  view-set_failure :
      (id : JobId) (reasons : PrinterReason) (message : String) (now : SystemTime)
      → view (set_failure r id reasons message now) other ≡ (
          if id == other
          then Option.map (fail_view reasons message now) (view r other)
          else view r other)
  unfolding fail_record is_canceled set_failure
  view-set_failure id reasons message now =
      ground (arith, get-set_failure r id other reasons message now)

  view-found : (j : JobRecord) → get r other ≡ some j → view r other ≡ some (view_of r j)
  view-found j found = rw found refl

module _ (r : JobRegistry) (other : JobId) (v : IsValid r) where
  -- A job that the registry has, after a cancel request.
  cancel-found :
      (id : JobId) (now : SystemTime) (k : JobRecord)
      → get r other ≡ some k
      → view (cancel r id now).0 other
        ≡ (if id == other then some (cancel_view now (view_of r k)) else some (view_of r k))
  unfolding cancel_record
  cancel-found id now k found =
      let same : k.id ≡ other = unfold get in find-has_id other r.jobs k found in
      let fk : get r k.id ≡ some k = ap (get r) same ∙ found in
      let flag : is_canceled k (cancel r id now).0
          ≡ (is_canceled k r || (id == other && not (is_terminal k.state))) =
        is_canceled-cancel r id k now v fk
        ∙ ap (λ t. is_canceled k r || (id == t && not (is_terminal k.state))) same in
      let got = (get-cancel r id other now).0 in
      let after : JobRegistry = (cancel r id now).0 in
      elim (Bool-cases (id == other)) [
        | inr apart ↦
            let kept : get after other ≡ some k = got ∙ rw apart found in
            let level : is_canceled k after ≡ is_canceled k r = ground (arith, flag, apart) in
            rw apart (view-found after other k kept ∙ ap (λ b. some (seen b k)) level)
        | inl mine ↦ elim (Bool-cases (is_terminal k.state)) [
          | inl over ↦
              let kept : get after other ≡ some k = got ∙ rw (mine, found) (rw over refl) in
              let level : is_canceled k after ≡ is_canceled k r = ground (arith, flag, over) in
              rw (mine, over) (view-found after other k kept ∙ ap (λ b. some (seen b k)) level)
          | inr live ↦
              let j : JobRecord = cancel_record now k in
              let ended : get after other ≡ some j = got ∙ rw (mine, found) (rw live refl) in
              let level : is_canceled k after ≡ true = ground (arith, flag, mine, live) in
              let same_flag : is_canceled j after ≡ is_canceled k after =
                unfold is_canceled in refl in
              rw (mine, live)
                (view-found after other j ended ∙ ap (λ b. some (seen b j)) (same_flag ∙ level))
        ]
      ]

  view-cancel :
      (id : JobId) (now : SystemTime)
      → view (cancel r id now).0 other
        ≡ (if id == other then Option.map (cancel_view now) (view r other) else view r other)
  view-cancel id now = elim (Option-cases (get r other)) [
    | inl missing ↦
        let none_yet : get (cancel r id now).0 other ≡ none =
          (get-cancel r id other now).0 ∙ ground (arith, missing) in
        rw (none_yet, missing) (ground arith)
    | inr (k, found) ↦ rw found (cancel-found id now k found)
  ]

  view-create :
      (name user : String) (now : SystemTime)
      → view (create r name user now).0 other
        ≡ (if suc (length r.jobs) == other then some (fresh_view name user now) else view r other)
  unfolding create is_canceled fresh_record
  view-create name user now =
      let after : JobRegistry = (create r name user now).0 in
      let fresh : JobRecord = fresh_record r name user now in
      let got : get after other ≡ (if r.next_id == other then some fresh else get r other) =
        (get-create r name user now other v).1 in
      let next : (r.next_id == other) ≡ (suc (length r.jobs) == other) =
        ap (λ n. n == other) v.next in
      elim (Bool-cases (suc (length r.jobs) == other)) [
        | inl hit ↦
            let made : get after other ≡ some fresh = got ∙ rw (next ∙ hit) refl in
            rw hit (
              view-found after other fresh made
              ∙ ap (λ b. some (seen b fresh)) (get_or-end r.flags))
        | inr miss ↦
            let kept : get after other ≡ get r other = got ∙ rw (next ∙ miss) refl in
            elim (Option-cases (get r other)) [
              | inl missing ↦ rw (miss, kept, missing) refl
              | inr (k, found) ↦
                  rw (miss, found)
                    (view-found after other k (kept ∙ found)
                      ∙ ap (λ b. some (seen b k)) (get_or-append r.flags k.cancel_flag))
            ]
      ]

-- The two tables are the same, if they count and list the same.
table-ext : (s t : JobTable) → s.count ≡ t.count → ((id : JobId) → s.entry id ≡ t.entry id) → s ≡ t
table-ext s t count entry = λ i. record { count = count i; entry = λ id. entry id i }

table-apply : (op : Op) (r : JobRegistry) → IsValid r → table (apply op r) ≡ table_op op (table r)
unfolding apply
table-apply (creates name user now) r v =
    table-ext _ _ (omega (arith, length-apply (creates name user now) r))
      (λ id. view-create r id v name user now)
table-apply (cancels id now) r v =
    table-ext _ _ (omega (arith, length-apply (cancels id now) r)) (λ k. view-cancel r k v id now)
table-apply (starts id now) r v =
    table-ext _ _ (omega (arith, length-apply (starts id now) r))
      (λ k. view-set_state r k id processing now)
table-apply (holds id now) r v =
    table-ext _ _ (omega (arith, length-apply (holds id now) r))
      (λ k. view-set_state r k id processing_stopped now)
table-apply (completes id now) r v =
    table-ext _ _ (omega (arith, length-apply (completes id now) r))
      (λ k. view-set_state r k id completed now)
table-apply (fails id reasons message now) r v =
    table-ext _ _ (omega (arith, length-apply (fails id reasons message now) r))
      (λ k. view-set_failure r k id reasons message now)

table-run :
    (ops : List Op) (r : JobRegistry)
    → IsValid r
    → length r.jobs + creations ops + 2 < 4294967296
    → table (run r ops) ≡ table_run ops (table r)
unfolding run
table-run [] r v room = refl
table-run (op ∷ ops) r v room =
    table-run ops (apply op r) (apply-IsValid op r v (omega arith))
      (omega (arith, length-apply op r))
    ∙ ap (table_run ops) (table-apply op r v)

-- After any sequence of registry operations with fewer than 2^32 - 2 creations, what the registry tells of every job,
-- its cancel flag included, is what the same operations make of a table that starts empty, in which a creation adds
-- the entry of the next number, and any other operation rewrites the entry of its job, if there is one, and nothing
-- else: a cancellation only if the job is not in a terminal state, a completion keeping an earlier completion time.
pub run-table :
    (ops : List Op) → creations ops + 2 < 4294967296 → table (run new ops) ≡ table_run ops no_jobs
run-table ops room =
    table-run ops new new-IsValid (unfold new in omega arith)
    ∙ ap (table_run ops) (unfold new get in refl)

-- ===== src/System/Alone.antt =====
-- src/server.rs, `spawn_print_worker`: one of many tasks, and no other of its job.
use ipp_printer_app.Base.{
  true, false, All, List, [], ap, arith, false, get_elem?, inl, inr, refl, some, suc, true, zero, ℕ,
  ◌++◌, ◌==◌, ◌∷◌, ◌≡◌, ◌≢◌, ◌⊎◌,
}
use mathlib.Core.Path.{subst}
use ipp_printer_app.Job.{JobId, JobRecord}
use ipp_printer_app.Server.{AppState}
use ipp_printer_app.Server.Worker.{Worker, Input, step}
use ipp_printer_app.Server.Worker.Terminal.{act-job}
use ipp_printer_app.System.{work_at}
use ipp_printer_app.System.Projection.{Moves, work_at-Moves, step-Moves, IsAlone}

-- The worker at an index makes the step, or stays as it is while another task moves.
abbrev pub Stepped :
    ℕ → ℕ → Input → Worker → List Worker → AppState → List Worker × AppState → Type 0
Stepped j k i w ws st (ws', st') =
    (((j == k) ≡ true) × (get_elem? ws' k ≡ some (step i (w, st)).0) × (st' ≡ (step i (w, st)).1))
    ⊎ (((j == k) ≡ false) × (get_elem? ws' k ≡ some w) × Moves w.job.id st st')

pub work_at-Stepped :
    (j k : ℕ) (i : Input) (w : Worker) (ws : List Worker) (st : AppState)
    → get_elem? ws k ≡ some w
    → IsAlone k w.job.id ws
    → Stepped j k i w ws st (work_at j i ws st)
unfolding work_at
work_at-Stepped j k i w [] st found alone = cc found
work_at-Stepped zero zero i w (x ∷ ws) st found alone =
    let same : x ≡ w = cc found in
    inl (refl, ap (λ y. some (step i (y, st)).0) same, ap (λ y. (step i (y, st)).1) same)
work_at-Stepped zero (suc k) i w (x ∷ ws) st found alone =
    inr (ground arith, found, step-Moves w.job.id i x st alone.0)
work_at-Stepped (suc j) zero i w (x ∷ ws) st found alone =
    inr (ground arith, found, work_at-Moves w.job.id j i ws st alone)
work_at-Stepped (suc j) (suc k) i w (x ∷ ws) st found alone =
    elim (work_at-Stepped j k i w ws st found alone.1) [
      | inl (hit, own, moved) ↦ inl (ground arith, own, moved)
      | inr (miss, same, moves) ↦ inr (ground arith, same, moves)
    ]

-- Before a step of some worker the worker at the index was alone, too.
All-work_at :
    (id : JobId) (j : ℕ) (i : Input) (ws : List Worker) (st : AppState)
    → All (λ (v : Worker). v.job.id ≢ id) (work_at j i ws st).0
    → All (λ (v : Worker). v.job.id ≢ id) ws
unfolding work_at step
All-work_at id j i [] st h = tt
All-work_at id zero i (w ∷ ws) st h =
    (subst (λ (r : JobRecord). r.id ≢ id) (act-job w.phase i w st) h.0, h.1)
All-work_at id (suc j) i (w ∷ ws) st h = (h.0, All-work_at id j i ws st h.1)

pub IsAlone-work_at :
    (id : JobId) (j k : ℕ) (i : Input) (ws : List Worker) (st : AppState)
    → IsAlone k id (work_at j i ws st).0
    → IsAlone k id ws
unfolding work_at step
IsAlone-work_at id j k i [] st h = tt
IsAlone-work_at id zero zero i (w ∷ ws) st h = h
IsAlone-work_at id zero (suc k) i (w ∷ ws) st h =
    (subst (λ (r : JobRecord). r.id ≢ id) (act-job w.phase i w st) h.0, h.1)
IsAlone-work_at id (suc j) zero i (w ∷ ws) st h = All-work_at id j i ws st h
IsAlone-work_at id (suc j) (suc k) i (w ∷ ws) st h = (h.0, IsAlone-work_at id j k i ws st h.1)

All-front : (P : Worker → Type 0) (xs ys : List Worker) → All P (xs ++ ys) → All P xs
All-front P [] ys h = tt
All-front P (x ∷ xs) ys h = (h.0, All-front P xs ys h.1)

pub IsAlone-append :
    (id : JobId) (k : ℕ) (xs ys : List Worker) → IsAlone k id (xs ++ ys) → IsAlone k id xs
IsAlone-append id k [] ys h = tt
IsAlone-append id zero (x ∷ xs) ys h = All-front (λ (v : Worker). v.job.id ≢ id) xs ys h
IsAlone-append id (suc k) (x ∷ xs) ys h = (h.0, IsAlone-append id k xs ys h.1)

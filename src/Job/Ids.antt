-- ===== src/Job/Ids.antt =====
-- src/job.rs: job ids are handed out in order, and each job has a cancel flag of its own.
use ipp_printer_app.Base.{
  Bool, Bool-cases, List, [], arith, find, inl, inr, length, none, refl, some, suc, update_first, ℕ,
  ◌++◌, ◌+◌, ◌<◌, ◌∷◌, ◌≡◌, ◌≤◌,
}
use ipp_printer_app.Job.{JobRecord, has_id}

-- The jobs of a list have the ids k, k + 1, ..., and job k owns the cell k - 1 of the flags.
abbrev pub Numbered : ℕ → List JobRecord → Type 0
Numbered k [] = Unit
Numbered k (j ∷ js) = (j.id ≡ k) × (suc j.cancel_flag ≡ k) × Numbered (suc k) js

pub Numbered-append :
    (k : ℕ) (js : List JobRecord) (j : JobRecord)
    → Numbered k js
    → j.id ≡ k + length js
    → suc j.cancel_flag ≡ k + length js
    → Numbered k (js ++ j ∷ [])
Numbered-append k [] j h e f = omega arith
Numbered-append k (i ∷ js) j h e f =
    (h.0, h.1, Numbered-append (suc k) js j h.2 (omega arith) (omega arith))

pub Numbered-update_first :
    (k : ℕ) (p : JobRecord → Bool) (f : JobRecord → JobRecord) (js : List JobRecord)
    → ((j : JobRecord) → ((f j).id ≡ j.id) × ((f j).cancel_flag ≡ j.cancel_flag))
    → Numbered k js
    → Numbered k (update_first p f js)
Numbered-update_first k p f [] same h = tt
Numbered-update_first k p f (j ∷ js) same h = elim (Bool-cases (p j)) [
  | inl hit ↦ rw hit (omega (arith, same j), omega (arith, same j), h.2)
  | inr miss ↦ rw miss (h.0, h.1, Numbered-update_first (suc k) p f js same h.2)
]

pub find-Numbered_below :
    (k i : ℕ) (js : List JobRecord) → Numbered k js → i < k → find (has_id i) js ≡ none
find-Numbered_below k i [] h lt = refl
find-Numbered_below k i (j ∷ js) h lt = ground (arith, find-Numbered_below (suc k) i js h.2)

pub find-Numbered_above :
    (k i : ℕ) (js : List JobRecord) → Numbered k js → k + length js ≤ i → find (has_id i) js ≡ none
find-Numbered_above k i [] h le = refl
find-Numbered_above k i (j ∷ js) h le = ground (arith, find-Numbered_above (suc k) i js h.2)

-- A job that is found owns the flag below its id.
pub find-Numbered_flag :
    (k i : ℕ) (js : List JobRecord) (j : JobRecord)
    → Numbered k js
    → find (has_id i) js ≡ some j
    → (suc j.cancel_flag ≡ i) × (i < k + length js) × (j.id ≡ i)
find-Numbered_flag k i [] j h e = cc
find-Numbered_flag k i (x ∷ js) j h e = ground (arith, find-Numbered_flag (suc k) i js j h.2)

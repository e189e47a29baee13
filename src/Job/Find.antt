-- ===== src/Job/Find.antt =====
-- src/job.rs: looking a job up by id after the job list was extended or one record rewritten.
use ipp_printer_app.Base.{
  All, Bool, Bool-cases, List, [], arith, find, if◌then◌else◌, inl, inr, none, refl, some,
  update_first, ◌++◌, ◌==◌, ◌∷◌, ◌≡◌,
}
use mathlib.Core.Option
use mathlib.Core.Path.{subst}
use ipp_printer_app.Job.{JobRecord, JobId, has_id}

abbrev pub KeepsId : (JobRecord → JobRecord) → Type 0
KeepsId f = (j : JobRecord) → (f j).id ≡ j.id

pub find-append :
    (id : JobId) (js : List JobRecord) (j : JobRecord)
    → find (has_id id) (js ++ j ∷ [])
      ≡ elim (find (has_id id) js) [ some k ↦ some k | none ↦ if j.id == id then some j else none ]
find-append id [] j = refl
find-append id (k ∷ js) j = elim (Bool-cases (k.id == id)) [
  | inl hit ↦ rw hit
  | inr miss ↦ rw miss (find-append id js j)
]

-- A record that is rewritten with its id kept is found rewritten, and the others as they were.
pub find-update_first :
    (id other : JobId) (f : JobRecord → JobRecord) (js : List JobRecord)
    → KeepsId f
    → find (has_id other) (update_first (has_id id) f js)
      ≡ (if id == other then Option.map f (find (has_id other) js) else find (has_id other) js)
find-update_first id other f [] k = ground arith
find-update_first id other f (j ∷ js) k = ground (arith, k j, find-update_first id other f js k)

pub find-has_id :
    (id : JobId) (js : List JobRecord) (j : JobRecord) → find (has_id id) js ≡ some j → j.id ≡ id
find-has_id id [] j h = cc
find-has_id id (k ∷ js) j h = elim (Bool-cases (k.id == id)) [
  | inl hit ↦ ground arith
  | inr miss ↦ find-has_id id js j (rw miss at h)
]

module _ {ℓ} (P : JobRecord → Type ℓ) where
  pub All-update_first :
      (p : JobRecord → Bool) (f : JobRecord → JobRecord) (js : List JobRecord)
      → ((j : JobRecord) → P j → P (f j))
      → All P js
      → All P (update_first p f js)
  All-update_first p f [] k h = tt
  All-update_first p f (j ∷ js) k h = elim (Bool-cases (p j)) [
    | inl hit ↦ rw hit (k j h.0, h.1)
    | inr miss ↦ rw miss (h.0, All-update_first p f js k h.1)
  ]

  pub All-find :
      (p : JobRecord → Bool) (js : List JobRecord) (j : JobRecord)
      → All P js
      → find p js ≡ some j
      → P j
  All-find p [] j h e = cc
  All-find p (k ∷ js) j h e = elim (Bool-cases (p k)) [
    | inl hit ↦
        let same : some k ≡ some j = rw hit at e in let eq : k ≡ j = cc same in subst P eq h.0
    | inr miss ↦ All-find p js j h.1 (rw miss at e)
  ]

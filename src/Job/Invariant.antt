-- ===== src/Job/Invariant.antt =====
-- src/job.rs: what holds of the registry between two locked operations.
use ipp_printer_app.Base.{
  if◌then◌else◌, ◌==◌, none, some, find, All, All-append, Bool, List, String, [], ap, arith, false,
  get_or, length, length-append, length-update_first, refl, set, suc, true, update_first, zero, ℕ,
  ◌++◌, ◌+◌, ◌<◌, ◌∙◌, ◌∷◌, ◌≡◌, ◌≢◌,
}
use ipp_printer_app.Flags.Reason.{PrinterReason}
use ipp_printer_app.Job.{
  JobId, SystemTime, JobRecord, JobRegistry, JobState, canceled, is_terminal, is_none, has_id, get,
  new, create, fresh_record, enter_state, set_state, fail_record, set_failure,
}
use ipp_printer_app.Job.Find.{find-append, All-update_first}
use ipp_printer_app.Job.Ids.{Numbered, Numbered-append, Numbered-update_first, find-Numbered_above}

-- A job in a terminal state has its completion time.
abbrev pub IsStamped : JobRecord → Type 0
IsStamped j = is_terminal j.state ≡ true → is_none j.completed_at ≡ false

-- The flag of a canceled job is up.
abbrev pub IsFlagged : List Bool → JobRecord → Type 0
IsFlagged flags j = j.state ≡ canceled → get_or flags j.cancel_flag false ≡ true

-- Fewer than 2^32 - 2 jobs were created, so that no id was used twice and the next is not either.
abbrev pub HasRoom : JobRegistry → Type 0
HasRoom r = length r.jobs + 2 < 4294967296

pub record IsValid (r : JobRegistry) : Type 0 where
  pub numbered : Numbered 1 r.jobs
  pub next : r.next_id ≡ suc (length r.jobs)
  pub cells : length r.flags ≡ length r.jobs
  pub stamped : All IsStamped r.jobs
  pub flagged : All (IsFlagged r.flags) r.jobs

pub new-IsValid : IsValid new
unfolding new
new-IsValid = record { numbered = tt; next = refl; cells = refl; stamped = tt; flagged = tt }

-- A cell beyond the end reads as before when one more cell is added in state `false`.
pub get_or-append :
    (flags : List Bool) (i : ℕ) → get_or (flags ++ false ∷ []) i false ≡ get_or flags i false
get_or-append [] zero = refl
get_or-append [] (suc i) = refl
get_or-append (b ∷ flags) zero = refl
get_or-append (b ∷ flags) (suc i) = get_or-append flags i

-- The cell that is added.
pub get_or-end : (flags : List Bool) → get_or (flags ++ false ∷ []) (length flags) false ≡ false
get_or-end [] = refl
get_or-end (b ∷ flags) = get_or-end flags

pub get_or-set_mono :
    (flags : List Bool) (i k : ℕ)
    → get_or flags k false ≡ true
    → get_or (set flags i true) k false ≡ true
get_or-set_mono [] i k h = cc
get_or-set_mono (b ∷ flags) zero zero h = refl
get_or-set_mono (b ∷ flags) zero (suc k) h = h
get_or-set_mono (b ∷ flags) (suc i) zero h = h
get_or-set_mono (b ∷ flags) (suc i) (suc k) h = get_or-set_mono flags i k h

pub get_or-set_self :
    (flags : List Bool) (i : ℕ) → i < length flags → get_or (set flags i true) i false ≡ true
get_or-set_self [] i h = absurd (omega arith)
get_or-set_self (b ∷ flags) zero h = refl
get_or-set_self (b ∷ flags) (suc i) h = get_or-set_self flags i (omega arith)

pub get_or-set_other :
    (flags : List Bool) (i k : ℕ) → i ≢ k → get_or (set flags i true) k false ≡ get_or flags k false
get_or-set_other [] i k h = refl
get_or-set_other (b ∷ flags) zero zero h = absurd (h refl)
get_or-set_other (b ∷ flags) zero (suc k) h = refl
get_or-set_other (b ∷ flags) (suc i) zero h = refl
get_or-set_other (b ∷ flags) (suc i) (suc k) h = get_or-set_other flags i k (λ e. h (ap suc e))

pub All-map {ℓ κ} :
    {A : Type ℓ} (P Q : A → Type κ) (xs : List A) → ((x : A) → P x → Q x) → All P xs → All Q xs
All-map P Q [] f h = tt
All-map P Q (x ∷ xs) f h = (f x h.0, All-map P Q xs f h.1)

pub create-IsValid :
    (r : JobRegistry) (name user : String) (now : SystemTime)
    → IsValid r
    → HasRoom r
    → IsValid (create r name user now).0
unfolding create
create-IsValid r name user now v room = record {
  numbered =
      Numbered-append 1 r.jobs (fresh_record r name user now) v.numbered (omega (arith, v.next))
        (omega (arith, v.cells));
  next = omega (arith, v.next, length-append r.jobs (fresh_record r name user now ∷ []));
  cells = omega (
    arith,
    v.cells,
    length-append r.flags (false ∷ []),
    length-append r.jobs (fresh_record r name user now ∷ []),
  );
  stamped =
      All-append IsStamped r.jobs (fresh_record r name user now ∷ []) v.stamped (ground arith);
  flagged =
      All-append (IsFlagged (r.flags ++ false ∷ [])) r.jobs (fresh_record r name user now ∷ [])
        (All-map (IsFlagged r.flags) (IsFlagged (r.flags ++ false ∷ [])) r.jobs
          (λ j h e. get_or-append r.flags j.cancel_flag ∙ h e) v.flagged)
        (ground arith);
}

-- Rewriting one record by a function that keeps the id, the flag's address and the two facts.
update-IsValid :
    (r : JobRegistry) (id : JobId) (f : JobRecord → JobRecord)
    → ((j : JobRecord) → ((f j).id ≡ j.id) × ((f j).cancel_flag ≡ j.cancel_flag))
    → ((j : JobRecord) → IsStamped j → IsStamped (f j))
    → ((j : JobRecord) → IsFlagged r.flags j → IsFlagged r.flags (f j))
    → IsValid r
    → IsValid (record r { jobs = update_first (has_id id) f r.jobs })
update-IsValid r id f same stamp flag v = record {
  numbered = Numbered-update_first 1 (has_id id) f r.jobs same v.numbered;
  next = omega (arith, v.next, length-update_first {0} (has_id id) f r.jobs);
  cells = omega (arith, v.cells, length-update_first {0} (has_id id) f r.jobs);
  stamped = All-update_first IsStamped (has_id id) f r.jobs stamp v.stamped;
  flagged = All-update_first (IsFlagged r.flags) (has_id id) f r.jobs flag v.flagged;
}

pub set_state-IsValid :
    (r : JobRegistry) (id : JobId) (s : JobState) (now : SystemTime)
    → s ≢ canceled
    → IsValid r
    → IsValid (set_state r id s now)
unfolding set_state
set_state-IsValid r id s now live v =
    update-IsValid r id (enter_state s now) (λ j. (refl, refl)) (λ j h. ground arith)
      (λ j h e. absurd (live e)) v

pub set_failure-IsValid :
    (r : JobRegistry) (id : JobId) (reasons : PrinterReason) (message : String) (now : SystemTime)
    → IsValid r
    → IsValid (set_failure r id reasons message now)
unfolding set_failure
set_failure-IsValid r id reasons message now v =
    update-IsValid r id (fail_record reasons message now) (λ j. (refl, refl)) (λ j h. ground arith)
      (λ j h e. cc) v

pub IsFlagged-set :
    (flags : List Bool) (i : ℕ) (x : JobRecord) → IsFlagged flags x → IsFlagged (set flags i true) x
IsFlagged-set flags i x h e = get_or-set_mono flags i x.cancel_flag (h e)

-- The id that `create` hands out is of no earlier job, and every job is found after it as before.
pub get-create :
    (r : JobRegistry) (name user : String) (now : SystemTime) (id : JobId)
    → IsValid r
    → (get r (create r name user now).1.id ≡ none)
      × (get (create r name user now).0 id ≡ (
          if (create r name user now).1.id == id
          then some (create r name user now).1
          else get r id))
unfolding create get fresh_record
get-create r name user now id v =
    let fresh : find (has_id r.next_id) r.jobs ≡ none =
      find-Numbered_above 1 r.next_id r.jobs v.numbered (omega (arith, v.next)) in
    (
      fresh,
      ground (
        arith,
        find-append id r.jobs (fresh_record r name user now),
        find-Numbered_above 1 id r.jobs v.numbered,
      ),
    )

-- ===== src/System/Settled.antt =====
-- src/server.rs: what a job has come to when its print workers have ended, in a server whose requests, workers, poller
-- and forms interleave in any way.
use ipp_printer_app.Base.{
  not, ◌&&◌, ==_iff, All, Bool, Bool-cases, List, Option, [], any, arith, false, inl, inr, refl,
  sym, true, ℕ, ◌==◌, ◌∙◌, ◌∷◌, ◌≡◌,
}
use mathlib.Core.Path.{subst}
use ipp_printer_app.Job.{JobId, JobRegistry}
use ipp_printer_app.Job.Invariant.{HasRoom}
use ipp_printer_app.Job.Views.{is_over}
use ipp_printer_app.Server.Startup.{ServerOptions}
use ipp_printer_app.Server.Worker.{finished, Worker}
use ipp_printer_app.State.{Disk}
use ipp_printer_app.Status.{AdvertiserControl}
use ipp_printer_app.System.{System, Reach}
use ipp_printer_app.System.Settling.{is_unsettled, has_begun, begun-is_over}
use ipp_printer_app.System.Driving.{drives}
use ipp_printer_app.System.Workers.{IsOwner}
use ipp_printer_app.System.Invariant.{IsSound}
use ipp_printer_app.System.Reached.{at_start, reached-IsSound}

-- Every task of the job has ended.
abbrev pub HasEnded : JobId → Worker → Type 0
HasEnded id w = w.job.id ≡ id → w.phase ≡ finished

ended-idle :
    (r : JobRegistry) (id : JobId) (ws : List Worker)
    → All (HasEnded id) ws
    → any (drives r id) ws ≡ false
ended-idle r id [] h = refl
ended-idle r id (w ∷ ws) h = elim (Bool-cases (w.job.id == id)) [
  | inl mine ↦
      let over : w.phase ≡ finished = h.0 ((==_iff w.job.id id).0 mine) in
      rw (over, ended-idle r id ws h.1) (ground arith)
  | inr other ↦ rw (other, ended-idle r id ws h.1) refl
]

-- Some worker was spawned for the job.
abbrev pub has_worker : JobId → List Worker → Bool
has_worker id ws = any (λ w. w.job.id == id) ws

ended-begun :
    (r : JobRegistry) (id : JobId) (ws : List Worker)
    → All (IsOwner r) ws
    → All (HasEnded id) ws
    → has_worker id ws ≡ true
    → has_begun r id ≡ true
ended-begun r id [] own h some_worker = cc some_worker
ended-begun r id (w ∷ ws) own h some_worker = elim (Bool-cases (w.job.id == id)) [
  | inl mine ↦
      let same : w.job.id ≡ id = (==_iff w.job.id id).0 mine in
      let begun : has_begun r w.job.id ≡ true = own.0.1 (rw (h.0 same) refl) in
      subst (λ k. has_begun r k ≡ true) same begun
  | inr other ↦ ended-begun r id ws own.1 h.1 (rw other at some_worker)
]

not_true : (b : Bool) → (b ≡ true → false ≡ true) → b ≡ false
not_true b h = elim (Bool-cases b) [ inl up ↦ cc (h up) | inr down ↦ down ]

module _ {A : Type 0} (control : AdvertiserControl A) (retry_ms : Option ℕ) (opts : ServerOptions)
    (disk : Disk) (adv : Option A) (s : System A)
    (reached : Reach control retry_ms (at_start opts disk adv) s) (room : HasRoom s.app.jobs)
    (id : JobId) where
  -- In every state that a server reaches from its start while fewer than 2^32 - 2 jobs were created: a job all of whose
  -- print workers have ended is in `Pending` or in a terminal state, and in a terminal state if it had a worker at all,
  -- however many documents were sent for it and in whatever order the tasks ran.
  pub ended-is_over :
      All (HasEnded id) s.workers
      → (is_unsettled s.app.jobs id ≡ false)
        × ((has_worker id s.workers && not (is_over s.app.jobs id)) ≡ false)
  ended-is_over ended =
      let sound : IsSound s.app.jobs s.workers =
        reached-IsSound control retry_ms opts disk adv s reached room in
      let settled : is_unsettled s.app.jobs id ≡ false =
        not_true (is_unsettled s.app.jobs id)
          λ h. sym (ended-idle s.app.jobs id s.workers ended) ∙ sound.driven id h in
      (
        settled,
        elim (Bool-cases (has_worker id s.workers)) [
          | inl has ↦
              let begun : has_begun s.app.jobs id ≡ true =
                ended-begun s.app.jobs id s.workers sound.owners ended has in
              rw (has, begun-is_over s.app.jobs id begun settled) refl
          | inr unused ↦ rw unused refl
        ],
      )

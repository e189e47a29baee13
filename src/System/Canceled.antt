-- ===== src/System/Canceled.antt =====
-- src/server.rs, `spawn_print_worker`: a canceled task of a running server.
use ipp_printer_app.Base.{
  All, All-map, List, Option, [], arith, get_elem?, some, suc, true, zero, ℕ, ◌∷◌, ◌≡◌, ◌≢◌, ◌≤◌,
}
use mathlib.Core.Path.{subst}
use ipp_printer_app.Job.{JobId, is_canceled}
use ipp_printer_app.Job.Invariant.{HasRoom}
use ipp_printer_app.Job.Views.{is_over}
use ipp_printer_app.Server.Startup.{ServerOptions}
use ipp_printer_app.Server.Worker.{Worker, finished}
use ipp_printer_app.Server.Worker.Cancel.{canceled_worker_ends}
use ipp_printer_app.State.{Disk}
use ipp_printer_app.Status.{AdvertiserControl}
use ipp_printer_app.System.{System, Reach, start, and_then}
use ipp_printer_app.System.Ends.{own_steps}
use ipp_printer_app.System.Projection.{IsAlone}
use ipp_printer_app.System.Simulation.{Reach-Arrived}
use ipp_printer_app.System.Reached.{at_start}
use ipp_printer_app.System.Settled.{HasEnded, has_worker, ended-is_over}

none_ended :
    (id : JobId) (ws : List Worker) → All (λ (v : Worker). v.job.id ≢ id) ws → All (HasEnded id) ws
none_ended id ws h = All-map ws (λ v apart same. absurd (apart same)) h

alone_ended :
    (k : ℕ) (id : JobId) (ws : List Worker) (w : Worker)
    → get_elem? ws k ≡ some w
    → w.phase ≡ finished
    → IsAlone k id ws
    → All (HasEnded id) ws
alone_ended k id [] w found over alone = tt
alone_ended zero id (x ∷ ws) w found over alone =
    let same : x ≡ w = cc found in ((λ mine. rw same over), none_ended id ws alone)
alone_ended (suc k) id (x ∷ ws) w found over alone =
    ((λ mine. absurd (alone.0 mine)), alone_ended k id ws w found over alone.1)

has_worker-found :
    (k : ℕ) (ws : List Worker) (w : Worker)
    → get_elem? ws k ≡ some w
    → has_worker w.job.id ws ≡ true
has_worker-found k [] w found = cc found
has_worker-found zero (x ∷ ws) w found = let same : x ≡ w = cc found in rw same (ground arith)
has_worker-found (suc k) (x ∷ ws) w found = ground (arith, has_worker-found k ws w found)

module _ {A : Type 0} (control : AdvertiserControl A) (retry_ms : Option ℕ) where
  trans-Reach :
      {s t u : System A}
      → Reach control retry_ms s t
      → Reach control retry_ms t u
      → Reach control retry_ms s u
  trans-Reach r start = r
  trans-Reach r (and_then q e) = and_then (trans-Reach r q) e

  -- In a server that fewer than 2^32 - 2 jobs were submitted to: a print worker whose cancel flag is up, and of whose job
  -- there is no other worker, has ended once it has made ten steps of its own, whatever the print callback reports
  -- and whatever requests, other workers, polls and forms come between; and its job is then in a terminal state.
  pub canceled_worker_is_over :
      (opts : ServerOptions) (disk : Disk) (adv : Option A) {s t : System A}
      (reached : Reach control retry_ms (at_start opts disk adv) s) (r : Reach control retry_ms s t)
      (k : ℕ) (w : Worker)
      → get_elem? s.workers k ≡ some w
      → is_canceled w.job s.app.jobs ≡ true
      → HasRoom t.app.jobs
      → IsAlone k w.job.id t.workers
      → 10 ≤ own_steps control retry_ms k r
      → (w' : Worker) × (get_elem? t.workers k ≡ some w')
        × (w'.phase ≡ finished)
        × (is_over t.app.jobs w.job.id ≡ true)
  canceled_worker_is_over opts disk adv {s} {t} reached r k w found up room alone long =
      let (w', found', mine, (run, steps)) =
        Reach-Arrived control retry_ms k r w found room alone in
      let over : w'.phase ≡ finished = canceled_worker_ends up run (omega arith) in
      let ended =
        ended-is_over control retry_ms opts disk adv t (trans-Reach reached r) room w.job.id
          (alone_ended k w.job.id t.workers w' found' over alone) in
      let has : has_worker w.job.id t.workers ≡ true =
        subst (λ id. has_worker id t.workers ≡ true) mine
          (has_worker-found k t.workers w' found') in
      (w', found', over, ground arith)

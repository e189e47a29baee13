-- ===== src/Tests/System.antt =====
-- Checks of the running server: a Print-Job request from its start, its worker, and a round of the poller.
use ipp_printer_app.Base.{
  ◌≤◌, not, ◌&&◌, arith, All, get_elem?, false, List, [], map, none, refl, some, suc, true, zero, ℕ,
  ◌++◌, ◌∷◌, ◌≡◌,
}
use ipp_printer_app.Base.Int.{pos}
use ipp_printer_app.Base.Int.{pos}
use ipp_printer_app.Server.Request.{job_id_of_attr}
use ipp_printer_app.Job.Invariant.{HasRoom}
use ipp_printer_app.Job.{is_canceled, set_state}
use ipp_printer_app.Job.Views.{is_over}
use ipp_printer_app.Raster.{JobOutcome}
use ipp_printer_app.Server.{
  set_printer_processing_named, set_printer_idle_named, set_printer_reasons,
}
use ipp_printer_app.Server.Startup.{ServerOptions, router_state}
use ipp_printer_app.Server.Worker.{Input, Worker, finished, spawn_print_worker}
use ipp_printer_app.Job
use ipp_printer_app.Server.Wire.{bytes_of}
use ipp_printer_app.Server.Wire.Encoded.{encode_all}
use ipp_printer_app.State.{write_ok}
use ipp_printer_app.System.{launch, System, request, work, Reach, start, and_then, happen}
use ipp_printer_app.System.Reached.{at_start, reached-IsSound}
use ipp_printer_app.System.Settling.{is_unsettled}
use ipp_printer_app.System.Settled.{HasEnded, has_worker, ended-is_over}
use ipp_printer_app.System.Invariant.{IsSound}
use ipp_printer_app.System.Printers.{fixed}
use ipp_printer_app.System.Queues.{HasQueue, reached-HaveQueues}
use ipp_printer_app.Tests.{printer, env}
use ipp_printer_app.System.Projection.{IsAlone, Sees}
use ipp_printer_app.System.Simulation.{Reach-Run}
use ipp_printer_app.System.Canceled.{canceled_worker_is_over}
use ipp_printer_app.System.Ends.{own_steps, steps_of, AreServed, available_worker_ends}
use ipp_printer_app.Tests.Polling.{Adverts, board, nothing}

-- A request on the wire, with the two bytes of its payload.
abbrev pub bytes : ℕ → List ℕ
bytes op =
    (2 ∷ 0 ∷ 0 ∷ op ∷ 0 ∷ 0 ∷ 0 ∷ 7 ∷ 1 ∷ [])
    ++ encode_all (
        record { tag = 0x47; name = bytes_of "attributes-charset"; value = bytes_of "utf-8" }
        ∷ record {
          tag = 0x48;
          name = bytes_of "attributes-natural-language";
          value = bytes_of "en";
        }
        ∷ [])
    ++ 3 ∷ 82 ∷ 97 ∷ []

-- A Print-Job request.
abbrev pub print_bytes : List ℕ
print_bytes = bytes 2

abbrev pub options : ServerOptions
options = record { host = "0.0.0.0"; port = 8631; printers = printer ∷ []; advertise_mdns = true }

abbrev pub input : Input
input = record { now = pos 9; outcome = JobOutcome.completed; write = write_ok }

abbrev pub at_first : System Adverts
at_first = at_start options none (some nothing)

-- A job is submitted.
abbrev submitted : System Adverts
submitted = happen board none (request env "labels" print_bytes) at_first

Reach-submitted : Reach board none at_first submitted
Reach-submitted = and_then start (request env "labels" print_bytes)

-- Its worker makes as many steps.
abbrev pub worked : ℕ → System Adverts → System Adverts
worked zero s = s
worked (suc n) s = happen board none (work 0 input) (worked n s)

abbrev pub worked_from :
    {s t : System Adverts} (n : ℕ) → Reach board none s t → Reach board none s (worked n t)
worked_from zero r = r
worked_from (suc n) r = and_then (worked_from n r) (work 0 input)

abbrev printed : System Adverts
printed = worked 11 submitted

ended : map (λ (w : Worker). w.phase) printed.workers ≡ finished ∷ []
unfolding happen launch router_state is_canceled set_state set_printer_processing_named
    set_printer_idle_named set_printer_reasons
ended = refl

printed-HasRoom : HasRoom printed.app.jobs
unfolding happen launch router_state is_canceled set_state set_printer_processing_named
    set_printer_idle_named set_printer_reasons
printed-HasRoom = omega arith

reached-IsSound_example : IsSound printed.app.jobs printed.workers
reached-IsSound_example =
    reached-IsSound board none options none (some nothing) printed (worked_from 11 Reach-submitted)
      printed-HasRoom

printed-HasEnded : All (HasEnded 1) printed.workers
unfolding happen launch router_state is_canceled set_state set_printer_processing_named
    set_printer_idle_named set_printer_reasons
printed-HasEnded = (λ same. refl, tt)

ended-is_over_example :
    (is_unsettled printed.app.jobs 1 ≡ false)
    × ((has_worker 1 printed.workers && not (is_over printed.app.jobs 1)) ≡ false)
ended-is_over_example =
    ended-is_over board none options none (some nothing) printed (worked_from 11 Reach-submitted)
      printed-HasRoom 1 printed-HasEnded

reached-HaveQueues_example :
    (map fixed printed.app.printers ≡ map fixed (printer ∷ []))
    × All (HasQueue printed.app.printers) printed.workers
reached-HaveQueues_example =
    reached-HaveQueues board none options none (some nothing) printed
      (worked_from 11 Reach-submitted) printed-HasRoom

abbrev job_one : Worker
unfolding spawn_print_worker
job_one = spawn_print_worker "labels" (Job.create Job.new "labels" "ann" env.now).1 none

found : get_elem? submitted.workers 0 ≡ some job_one
unfolding happen launch router_state job_one Job.create Job.new
found = refl

abbrev stay : Reach board none submitted submitted
stay = start

AreServed-works : (n : ℕ) → AreServed board none 0 (worked_from n stay)
AreServed-works zero = tt
AreServed-works (suc n) = (AreServed-works n, λ here. refl)

few : steps_of job_one ≤ 14
unfolding job_one spawn_print_worker
few = omega arith

available_worker_ends_example :
    (w' : Worker) × (get_elem? (worked 14 submitted).workers 0 ≡ some w') × (w'.phase ≡ finished)
available_worker_ends_example =
    available_worker_ends board none 0 (worked_from 14 stay) job_one found (AreServed-works 14) few

printed-IsAlone : IsAlone 0 1 printed.workers
unfolding happen launch router_state is_canceled set_state set_printer_processing_named
    set_printer_idle_named set_printer_reasons
printed-IsAlone = tt

Reach-Run_example :
    (w' : Worker) × (get_elem? printed.workers 0 ≡ some w')
    × Sees (job_one, submitted.app) (w', printed.app) (own_steps board none 0 (worked_from 11 stay))
unfolding job_one Job.create Job.new
Reach-Run_example =
    Reach-Run board none 0 (worked_from 11 stay) job_one found printed-HasRoom printed-IsAlone

-- The job is canceled before its worker makes a step.
abbrev canceled : System Adverts
canceled = happen board none (request env "labels" (bytes 8)) submitted

abbrev Reach-canceled : Reach board none at_first canceled
Reach-canceled = and_then Reach-submitted (request env "labels" (bytes 8))

canceled_found : get_elem? canceled.workers 0 ≡ some job_one
unfolding happen launch router_state job_one Job.create Job.new
canceled_found = refl

raised : is_canceled job_one.job canceled.app.jobs ≡ true
unfolding happen launch router_state job_one Job.create Job.new is_canceled Job.cancel
    job_id_of_attr
raised = refl

rest : Reach board none canceled canceled
rest = start

ended_room : HasRoom (worked 10 canceled).app.jobs
unfolding happen launch router_state is_canceled set_state set_printer_processing_named
    set_printer_idle_named set_printer_reasons Job.cancel job_id_of_attr
ended_room = omega arith

worked-IsAlone : IsAlone 0 job_one.job.id (worked 10 canceled).workers
unfolding happen launch router_state is_canceled set_state set_printer_processing_named
    set_printer_idle_named set_printer_reasons Job.cancel job_id_of_attr
worked-IsAlone = tt

ten : 10 ≤ own_steps board none 0 (worked_from 10 rest)
unfolding rest
ten = omega arith

canceled_worker_is_over_example :
    (w' : Worker) × (get_elem? (worked 10 canceled).workers 0 ≡ some w')
    × (w'.phase ≡ finished)
    × (is_over (worked 10 canceled).app.jobs job_one.job.id ≡ true)
canceled_worker_is_over_example =
    canceled_worker_is_over board none options none (some nothing) Reach-canceled
      (worked_from 10 rest) 0 job_one canceled_found raised ended_room worked-IsAlone ten

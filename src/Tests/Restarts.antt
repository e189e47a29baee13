-- ===== src/Tests/Restarts.antt =====
-- Checks of the running server: a round of the poller, and the next start.
use ipp_printer_app.Base.{List, String, false, [], map, none, refl, some, suc, zero, ℕ, ◌∷◌, ◌≡◌}
use ipp_printer_app.Base.Int.{pos}
use ipp_printer_app.Base.Int.{pos}
use ipp_printer_app.Flags.Reason
use ipp_printer_app.Device.{PollStatus}
use ipp_printer_app.Job.{is_canceled, set_state}
use ipp_printer_app.Printer.{PrinterConfig}
use ipp_printer_app.Server.{
  set_printer_processing_named, set_printer_idle_named, set_printer_reasons,
}
use ipp_printer_app.Server.Startup.{router_state, bootstrap_printers}
use ipp_printer_app.State.{load, write_ok}
use ipp_printer_app.System.{
  launch, System, request, begin_round, answer, end_round, write_round, submit, read_save,
  write_save, Reach, start, and_then, happen,
}
use ipp_printer_app.System.Reached.{at_start}
use ipp_printer_app.Tests.{env}
use ipp_printer_app.System.Restart.{with_printers, restart-same_printers}
use ipp_printer_app.System.Persisted.{is_behind, is_writing}
use ipp_printer_app.System.Persisted.Events.{AllWritesOk, AllInTurn}
use ipp_printer_app.Server.Startup.Merge.{configs}
use ipp_printer_app.Status.{apply_status}
use ipp_printer_app.Example.{demo}
use ipp_printer_app.Mdns.{Advertiser}
use ipp_printer_app.Mdns.Control.{control}
use ipp_printer_app.Mdns.Rounds.{InSync}
use ipp_printer_app.System.Adverts.{reached-InSync}
use ipp_printer_app.Tests.{printer}
use ipp_printer_app.Tests.Adverts.{
  Daemon, dnssd, live, dnssd-IsDaemon, receipts, owner, one, two-AllOwned, one-IsInSync,
}
use ipp_printer_app.Tests.Startup.{uuids, demo-keeps}
use ipp_printer_app.Tests.Polling.{Adverts, board, nothing}
use ipp_printer_app.Tests.System.{print_bytes, options, worked, worked_from}

-- An answer with a new roll.
abbrev loaded : PollStatus
loaded = record {
  reasons = Reason.empty;
  ready_media =
      some (record {
        name = "om_roll_50x30mm";
        size_hmm = (pos 5000, pos 3000);
        media_type = "labels";
      });
  supply_percent = none;
}

-- The demo server, with a job for the queue of its device.
abbrev booted : System Adverts
booted =
    at_start (with_printers options (bootstrap_printers write_ok demo uuids none).0)
      (bootstrap_printers write_ok demo uuids none).1 (some nothing)

-- A job is submitted and a round of the poller runs, then the worker.
abbrev polled : System Adverts
polled = happen board none (write_round write_ok) (
    happen board none end_round (
      happen board none (answer (some loaded)) (
        happen board none begin_round
          (happen board none (request env "demo_printer" print_bytes) booted))))

abbrev Reach-polled : Reach board none booted polled
Reach-polled =
    and_then
      (and_then
        (and_then (and_then (and_then start (request env "demo_printer" print_bytes)) begin_round)
          (answer (some loaded)))
        end_round)
      (write_round write_ok)

abbrev ran : System Adverts
ran = worked 11 polled

AllWritesOk-worked_from :
    {s t : System Adverts} (n : ℕ) (r : Reach board none s t)
    → AllWritesOk board none r
    → AllWritesOk board none (worked_from n r)
AllWritesOk-worked_from zero r h = h
AllWritesOk-worked_from (suc n) r h = (AllWritesOk-worked_from n r h, refl)

polled-AllWritesOk : AllWritesOk board none Reach-polled
polled-AllWritesOk = (((((tt, tt), tt), tt), tt), refl)

polled-AllInTurn : AllInTurn board none Reach-polled
unfolding happen launch router_state bootstrap_printers demo
polled-AllInTurn = (((((tt, tt), tt), tt), λ dirty. refl), tt)

AllInTurn-worked_from :
    {s t : System Adverts} (n : ℕ) (r : Reach board none s t)
    → AllInTurn board none r
    → AllInTurn board none (worked_from n r)
AllInTurn-worked_from zero r h = h
AllInTurn-worked_from (suc n) r h = (AllInTurn-worked_from n r h, tt)

-- The roll that the poll reports is in the file.
ran_saved :
    map (λ (cfg : PrinterConfig). cfg.media_names) (load ran.app.disk).printers
    ≡ ("om_roll_50x30mm" ∷ "om_30x20mm_30x20mm" ∷ []) ∷ []
unfolding happen launch router_state bootstrap_printers demo load is_canceled set_state
    set_printer_processing_named set_printer_idle_named set_printer_reasons apply_status
ran_saved = refl

ran-clean : is_behind ran ≡ false
unfolding happen launch router_state bootstrap_printers demo apply_status
ran-clean = refl

ran-quiet : is_writing ran ≡ false
unfolding happen launch router_state bootstrap_printers demo apply_status is_canceled set_state
    set_printer_processing_named set_printer_idle_named set_printer_reasons
ran-quiet = refl

restart-same_printers_example :
    let (printers, disk') = bootstrap_printers write_ok demo uuids ran.app.disk in
    (configs printers ≡ configs ran.app.printers) × (disk' ≡ ran.app.disk)
unfolding demo
restart-same_printers_example =
    restart-same_printers board none demo demo-keeps uuids uuids none options (some nothing) ran
      (worked_from 11 Reach-polled) (AllWritesOk-worked_from 11 Reach-polled polled-AllWritesOk)
      (AllInTurn-worked_from 11 Reach-polled polled-AllInTurn) ran-clean ran-quiet

-- The poller reads the registry at the end of a round with a new roll, a form changes it and is written, and then the
-- poller writes what it had read: every write succeeds, no task has anything left to write, and the file has the old list.
abbrev overtaken : System Adverts
overtaken = happen board none (write_round write_ok) (
    happen board none (write_save 0 write_ok) (
      happen board none (read_save 0) (
        happen board none (submit "demo_printer" (record { width_mm = 40; height_mm = 20 })) (
          happen board none end_round
            (happen board none (answer (some loaded)) (happen board none begin_round booted))))))

abbrev names : List PrinterConfig → List (List String)
names cfgs = map (λ (cfg : PrinterConfig). cfg.media_names) cfgs

overtaken_lost :
    (names (configs overtaken.app.printers)
      ≡ ("om_40x20mm_40x20mm" ∷ "om_roll_50x30mm" ∷ "om_30x20mm_30x20mm" ∷ []) ∷ [])
    × (names (load overtaken.app.disk).printers
        ≡ ("om_roll_50x30mm" ∷ "om_30x20mm_30x20mm" ∷ []) ∷ [])
    × (is_behind overtaken ≡ false)
    × (is_writing overtaken ≡ false)
unfolding happen launch router_state bootstrap_printers demo load is_canceled set_state
    set_printer_processing_named set_printer_idle_named set_printer_reasons apply_status
overtaken_lost = (refl, refl, refl, refl)

-- Both printers are found offline in a round.
abbrev offline : PollStatus
offline = record { reasons = Reason.offline; ready_media = none; supply_percent = none }

abbrev advertising : System (Advertiser Daemon ℕ)
advertising = at_start (with_printers options (printer ∷ receipts ∷ [])) none (some one)

abbrev silent : System (Advertiser Daemon ℕ)
silent = happen (control dnssd) none (answer (some offline)) (
    happen (control dnssd) none (answer (some offline))
      (happen (control dnssd) none begin_round advertising))

Reach-silent : Reach (control dnssd) none advertising silent
Reach-silent =
    and_then (and_then (and_then start begin_round) (answer (some offline))) (answer (some offline))

reached-InSync_example : InSync dnssd live dnssd-IsDaemon owner silent.adverts
reached-InSync_example =
    reached-InSync dnssd live dnssd-IsDaemon owner none
      (with_printers options (printer ∷ receipts ∷ [])) none (some one) silent Reach-silent
      two-AllOwned one-IsInSync

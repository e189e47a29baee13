-- ===== src/System/Adverts.antt =====
-- src/status.rs with src/mdns.rs: the adverts of a running server.
use ipp_printer_app.Base.{true, false, sym, ◌≡◌, All, Bool, List, Option, String, [], map, ℕ, ◌∷◌}
use mathlib.Core.Path.{subst}
use ipp_printer_app.Device.{PollStatus}
use ipp_printer_app.Printer.{PrinterConfig, PrinterRegistry, display_label}
use ipp_printer_app.Server.Startup.{ServerOptions, router_state}
use ipp_printer_app.State.{Disk, Write}
use ipp_printer_app.Mdns.{Advertiser, MdnsCrate}
use ipp_printer_app.Mdns.Control.{control}
use ipp_printer_app.Mdns.Live.{IsDaemon, IsOwned}
use ipp_printer_app.Mdns.Rounds.{AllOwned, InSync, poll_one-InSync}
use ipp_printer_app.System.{
  Poller, waiting, polling, saving, System, Event, request, work, begin_round, answer, end_round,
  write_round, submit, read_save, write_save, launch, snapshot, next_answer, finish_round,
  save_round, happen, serve, Reach, start, and_then,
}
use ipp_printer_app.System.Printers.{fixed, fixed-Reach}
use ipp_printer_app.System.Reached.{at_start}

module _ {D I N : Type 0} (crate : MdnsCrate D I N) (live : D → String → Bool)
    (daemon : IsDaemon crate live) (owner : String → String) (retry_ms : Option ℕ) where
  abbrev FixedOwned : List (String × PrinterConfig) → Type 0
  FixedOwned qs = All (λ (q : String × PrinterConfig). IsOwned crate live daemon owner q.1) qs

  owned-fixed :
      (ps : PrinterRegistry) → AllOwned crate live daemon owner ps → FixedOwned (map fixed ps)
  unfolding display_label
  owned-fixed [] h = tt
  owned-fixed (p ∷ ps) h = (h.0, owned-fixed ps h.1)

  fixed-owned :
      (ps : PrinterRegistry) → FixedOwned (map fixed ps) → AllOwned crate live daemon owner ps
  unfolding display_label
  fixed-owned [] h = tt
  fixed-owned (p ∷ ps) h = (h.0, fixed-owned ps h.1)

  -- The same queues, the media lists aside, have the same services.
  AllOwned-fixed :
      (ps qs : PrinterRegistry)
      → map fixed qs ≡ map fixed ps
      → AllOwned crate live daemon owner ps
      → AllOwned crate live daemon owner qs
  AllOwned-fixed ps qs same h = fixed-owned qs (subst FixedOwned (sym same) (owned-fixed ps h))

  abbrev Synced : System (Advertiser D N) → Type 0
  Synced s = InSync crate live daemon owner s.adverts

  snapshot-Synced :
      (p : Poller) (s : System (Advertiser D N))
      → Synced s
      → Synced (snapshot (control crate) retry_ms p s)
  unfolding snapshot
  snapshot-Synced waiting s h = h
  snapshot-Synced (polling cfgs changed) s h = h
  snapshot-Synced (saving c) s h = h

  next_answer-Synced :
      (a : Option PollStatus) (p : Poller) (s : System (Advertiser D N))
      → AllOwned crate live daemon owner s.app.printers
      → Synced s
      → Synced (next_answer (control crate) retry_ms a p s)
  unfolding next_answer
  next_answer-Synced a waiting s own h = h
  next_answer-Synced a (saving c) s own h = h
  next_answer-Synced a (polling [] changed) s own h = h
  next_answer-Synced a (polling (cfg ∷ cfgs) changed) s own h =
      (poll_one-InSync crate live daemon owner cfg.name a s.app.printers s.adverts own h).1

  finish_round-Synced :
      (p : Poller) (s : System (Advertiser D N))
      → Synced s
      → Synced (finish_round (control crate) retry_ms p s)
  unfolding finish_round
  finish_round-Synced waiting s h = h
  finish_round-Synced (polling [] true) s h = h
  finish_round-Synced (polling [] false) s h = h
  finish_round-Synced (polling (cfg ∷ cfgs) changed) s h = h
  finish_round-Synced (saving c) s h = h

  save_round-Synced :
      (write : Write) (p : Poller) (s : System (Advertiser D N))
      → Synced s
      → Synced (save_round (control crate) retry_ms write p s)
  unfolding save_round
  save_round-Synced write waiting s h = h
  save_round-Synced write (polling cfgs changed) s h = h
  save_round-Synced write (saving c) s h = h

  happen-Synced :
      (e : Event) (s : System (Advertiser D N))
      → AllOwned crate live daemon owner s.app.printers
      → Synced s
      → Synced (happen (control crate) retry_ms e s)
  unfolding happen serve
  happen-Synced (request env name body) s own h = h
  happen-Synced (work k i) s own h = h
  happen-Synced begin_round s own h = snapshot-Synced s.poller s h
  happen-Synced (answer a) s own h = next_answer-Synced a s.poller s own h
  happen-Synced end_round s own h = finish_round-Synced s.poller s h
  happen-Synced (write_round write) s own h = save_round-Synced write s.poller s h
  happen-Synced (submit name form) s own h = h
  happen-Synced (read_save k) s own h = h
  happen-Synced (write_save k write) s own h = h

  Reach-Synced :
      {s t : System (Advertiser D N)}
      → Reach (control crate) retry_ms s t
      → AllOwned crate live daemon owner s.app.printers
      → Synced s
      → Synced t
  Reach-Synced start own h = h
  Reach-Synced {s} (and_then {t} r e) own h =
      happen-Synced e t
        (AllOwned-fixed s.app.printers t.app.printers (fixed-Reach (control crate) retry_ms r) own)
        (Reach-Synced r own h)

  -- In every state that a server with the advertiser of src/mdns.rs reaches from its start: a daemon that does what
  -- mdns-sd documents answers for exactly the services that the advertiser remembers, each of them belonging to its
  -- printer, if it did at the start and if the service of each printer then belonged to its name alone.
  pub reached-InSync :
      (opts : ServerOptions) (disk : Disk) (adv : Option (Advertiser D N))
      (s : System (Advertiser D N))
      → Reach (control crate) retry_ms (at_start opts disk adv) s
      → AllOwned crate live daemon owner opts.printers
      → InSync crate live daemon owner adv
      → InSync crate live daemon owner s.adverts
  unfolding launch router_state
  reached-InSync opts disk adv s r own sync = Reach-Synced r own sync

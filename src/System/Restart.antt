-- ===== src/System/Restart.antt =====
-- src/server.rs: from `bootstrap_printers` through any run of the server to the next `bootstrap_printers`.
use ipp_printer_app.Base.{
  All-map, List, All, Option, String, [], any, ap, false, map, none, refl, some, sym, true, ℕ, ◌=ˢ◌,
  ◌||◌, ◌∙◌, ◌∷◌, ◌≡◌,
}
use ipp_printer_app.Device.{DiscoveredDevice}
use ipp_printer_app.Printer.{PrinterConfig, PrinterRegistry}
use ipp_printer_app.Server.Startup.{
  Discovery, Uuids, ServerOptions, bootstrap_printers, router_state,
}
use ipp_printer_app.Server.Startup.Merge.{
  configs, covers, config_for, add_all, is_known, configs-bootstrap_printers,
}
use ipp_printer_app.Server.Startup.Bootstrap.{known-add_all, add_all-known}
use ipp_printer_app.State.{Disk, load, persist, write_ok}
use ipp_printer_app.Status.{AdvertiserControl}
use ipp_printer_app.System.{System, Reach, launch}
use ipp_printer_app.System.Printers.{fixed, fixed-Reach}
use ipp_printer_app.System.Persisted.{IsStored, is_behind, is_writing}
use ipp_printer_app.System.Persisted.Events.{AllWritesOk, AllInTurn, Reach-IsUpToDate}
use ipp_printer_app.System.Reached.{at_start}

covers-fixed :
    (uri : String) (ps : PrinterRegistry)
    → covers uri (configs ps)
      ≡ any (λ (q : String × PrinterConfig). q.1.device_uri =ˢ uri) (map fixed ps)
covers-fixed uri [] = refl
covers-fixed uri (p ∷ ps) = ap (λ b. p.config.device_uri =ˢ uri || b) (covers-fixed uri ps)

-- The devices of the queues are the same.
covers-same :
    (uri : String) (ps qs : PrinterRegistry)
    → map fixed ps ≡ map fixed qs
    → covers uri (configs ps) ≡ covers uri (configs qs)
covers-same uri ps qs same =
    covers-fixed uri ps
    ∙ ap (any (λ (q : String × PrinterConfig). q.1.device_uri =ˢ uri)) same
    ∙ sym (covers-fixed uri qs)

module _ (found : Discovery) where
  is_known-same :
      (d : DiscoveredDevice) (o : Option PrinterConfig) (ps qs : PrinterRegistry)
      → map fixed ps ≡ map fixed qs
      → is_known found d o (configs qs) ≡ true
      → is_known found d o (configs ps) ≡ true
  is_known-same d none ps qs same h = refl
  is_known-same d (some cfg) ps qs same h = covers-same d.uri ps qs same ∙ h

  known-bootstrap_printers :
      ((name info driver uri device_id : String) (cfg : PrinterConfig)
        → found.make_config name info driver uri device_id ≡ some cfg
        → cfg.device_uri ≡ uri)
      → (fresh : Uuids) (disk : Disk)
      → All
          (λ d.
            is_known found d
              (config_for found d)
              (configs (bootstrap_printers write_ok found fresh disk).0)
            ≡ true)
          found.devices
  known-bootstrap_printers keeps fresh disk =
      rw (configs-bootstrap_printers found write_ok fresh disk)
        (known-add_all found keeps found.devices (load disk).printers)

  bootstrap_printers-IsStored :
      (fresh : Uuids) (disk : Disk)
      → let (printers, disk') = bootstrap_printers write_ok found fresh disk in
        IsStored printers disk'
  unfolding bootstrap_printers persist
  bootstrap_printers-IsStored fresh disk = refl

  known-same :
      (ds : List DiscoveredDevice) (ps qs : PrinterRegistry)
      → map fixed ps ≡ map fixed qs
      → All (λ d. is_known found d (config_for found d) (configs qs) ≡ true) ds
      → All (λ d. is_known found d (config_for found d) (configs ps) ≡ true) ds
  known-same ds ps qs same h =
      All-map ds (λ d k. is_known-same d (config_for found d) ps qs same k) h

  load-IsStored :
      (ps : PrinterRegistry) (disk : Disk) → IsStored ps disk → (load disk).printers ≡ configs ps
  unfolding load
  load-IsStored ps disk stored = rw stored refl

-- The options with the printers that `bootstrap_printers` gives.
abbrev pub with_printers : ServerOptions → PrinterRegistry → ServerOptions
with_printers opts printers = record opts { printers = printers }

-- A server is started on stored and discovered printers, runs, and stops at a point where no change of media is left to
-- be read for writing out and no task is between its reading of the registry and its write. Every write succeeded, and
-- whenever the poller or a form read the registry to write out a change of media, no task was between its own reading
-- and its write; otherwise the tasks interleave in any way. Then the next start with the same devices reads back exactly
-- the configurations of the registry, in their order, what was learned of the media included, and leaves the file as it
-- was, provided that the callback gives a configuration the URI that it is asked for and that the writes of the two
-- starts succeed.
pub restart-same_printers :
    {A : Type 0} (control : AdvertiserControl A) (retry_ms : Option ℕ) (found : Discovery)
    (keeps : (name info driver uri device_id : String) (cfg : PrinterConfig)
      → found.make_config name info driver uri device_id ≡ some cfg
      → cfg.device_uri ≡ uri)
    (fresh later : Uuids) (before : Disk) (opts : ServerOptions) (adv : Option A) (s : System A)
    (reached : Reach control retry_ms
      (at_start
        (with_printers opts (bootstrap_printers write_ok found fresh before).0)
        (bootstrap_printers write_ok found fresh before).1
        adv)
      s)
    → AllWritesOk control retry_ms reached
    → AllInTurn control retry_ms reached
    → is_behind s ≡ false
    → is_writing s ≡ false
    → let (printers, disk') = bootstrap_printers write_ok found later s.app.disk in
      (configs printers ≡ configs s.app.printers) × (disk' ≡ s.app.disk)
unfolding launch router_state
restart-same_printers control retry_ms found keeps fresh later before opts adv s reached ok_ turns
      clean quiet =
    let booted : PrinterRegistry = (bootstrap_printers write_ok found fresh before).0 in
    let stored : IsStored s.app.printers s.app.disk =
      (Reach-IsUpToDate control retry_ms reached ok_ turns
          (λ at_first. record {
            workers = tt;
            poller = tt;
            saves = tt;
            stored = λ idle. bootstrap_printers-IsStored found fresh before;
          })
          clean).stored
        quiet in
    let same : map fixed s.app.printers ≡ map fixed booted = fixed-Reach control retry_ms reached in
    let known =
      known-same found found.devices s.app.printers booted same
        (known-bootstrap_printers found keeps fresh before) in
    let again : configs (bootstrap_printers write_ok found later s.app.disk).0
        ≡ configs s.app.printers =
      configs-bootstrap_printers found write_ok later s.app.disk
      ∙ ap (add_all found found.devices) (load-IsStored found s.app.printers s.app.disk stored)
      ∙ add_all-known found keeps found.devices (configs s.app.printers) known in
    (
      again,
      bootstrap_printers-IsStored found later s.app.disk
          ∙ ap (λ cfgs. some (record { printers = cfgs })) again
          ∙ sym stored,
    )

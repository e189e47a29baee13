-- ===== src/Mdns/Shared.antt =====
-- src/mdns.rs: two printers that are advertised by one service.
use ipp_printer_app.Base.{
  Bool, String, ap, eq_refl, false, if◌then◌else◌, none, some, true, ◌=ˢ◌, ◌∙◌, ◌≡◌,
}
use ipp_printer_app.Printer.{PrinterRecord, display_label}
use ipp_printer_app.Mdns.{Advertiser, MdnsCrate, withdraw, is_advertised, lookup, withdraw_entry}
use ipp_printer_app.Mdns.Control.{control, is_advertised-withdraw}
use ipp_printer_app.Mdns.Live.{IsDaemon, fullname}

module _ {D I N : Type 0} (crate : MdnsCrate D I N) (live : D → String → Bool)
    (daemon : IsDaemon crate live) where
  -- Two registered printers of different names and of one label share a service: when one of them is withdrawn, the
  -- daemon does not answer for the other either, which is still taken for advertised.
  pub withdraw_shared :
      (p q : PrinterRecord) (a : Advertiser D N)
      → (p.config.name =ˢ q.config.name) ≡ false
      → display_label p.config ≡ display_label q.config
      → lookup p.config.name a.registered ≡ some (fullname p.config)
      → lookup q.config.name a.registered ≡ some (fullname q.config)
      → let a' = withdraw crate p.config.name a in
        ((control crate).is_advertised q.config.name a' ≡ true)
        × (live a'.daemon (daemon.key (fullname q.config)) ≡ false)
  unfolding withdraw control is_advertised
  withdraw_shared p q a apart label held shared = (
    is_advertised-withdraw crate p.config.name q.config.name a ∙ rw apart (holds shared),
    ap (λ o. live (withdraw_entry crate p.config.name o a).daemon (daemon.key (fullname q.config)))
          held
        ∙ daemon.live-unregister (fullname p.config) a.daemon (daemon.key (fullname q.config))
        ∙ same_service label,
  )
    where
      holds :
          lookup q.config.name a.registered ≡ some (fullname q.config)
          → is_advertised crate q.config.name a ≡ true
      holds e = ap (λ o. elim o [ none ↦ false | some f ↦ true ]) e

      same_service :
          display_label p.config ≡ display_label q.config
          → (if daemon.key (fullname p.config) =ˢ daemon.key (fullname q.config)
              then false
              else live a.daemon (daemon.key (fullname q.config)))
            ≡ false
      same_service e = rw (e, eq_refl (daemon.key (fullname q.config)))

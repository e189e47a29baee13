-- ===== src/Mdns/Start.antt =====
-- src/mdns.rs, `register_all`: the adverts at start-up.
use ipp_printer_app.Base.{
  ◌>>=◌, All, Bool, List, Option, String, [], any, ap, arith, false, if◌then◌else◌, map, none, refl,
  some, true, ℕ, ◌=ˢ◌, ◌||◌, ◌∙◌, ◌∷◌, ◌≡◌,
}
use mathlib.Core.Option
use ipp_printer_app.Printer.{PrinterRecord, PrinterRegistry, is_named, display_label}
use ipp_printer_app.Mdns.{
  Advertiser, AsIpAddrs, Interface, MdnsCrate, Table, hostname, info_of, is_advertised, lookup,
  mdns_ifaces, register_all, register_each, register_info, register_one, restrict, service_info,
}
use ipp_printer_app.Mdns.Control.{is_advertised-register_info}
use ipp_printer_app.Mdns.Live.{IsDaemon, IsInSync, IsOwned, register_one-IsInSync}

-- No two printers of the list have the same name.
abbrev pub Distinct : PrinterRegistry → Type 0
Distinct [] = Unit
Distinct (p ∷ ps) =
    All (λ (q : PrinterRecord). (p.config.name =ˢ q.config.name) ≡ false) ps × Distinct ps

-- No call of the crate fails.
pub record IsWorking {D I N : Type 0} (crate : MdnsCrate D I N) : Type 0 where
  pub starts : (d : D) × (crate.new_daemon ≡ some d)
  pub disables : (d : D) → (d' : D) × (crate.disable_all d ≡ some d')
  pub enables :
      (names : List String) (d : D) → (d' : D) × (crate.enable_interface names d ≡ some d')
  pub describes :
      (ty instance_name host : String) (ips : AsIpAddrs N) (port : ℕ) (txt : Table)
      → (i : I) × (crate.new_service ty instance_name host ips port txt ≡ some i)
  pub registers : (i : I) (d : D) → (crate.register i d).1 ≡ true

module _ {D I N : Type 0} (crate : MdnsCrate D I N) (live : D → String → Bool)
    (daemon : IsDaemon crate live) (owner : String → String) where
  abbrev Free : Advertiser D N → PrinterRegistry → Type 0
  Free a ps = All (λ (p : PrinterRecord). is_advertised crate p.config.name a ≡ false) ps

  free-lookup :
      (name : String) (a : Advertiser D N)
      → is_advertised crate name a ≡ false
      → lookup name a.registered ≡ none
  unfolding is_advertised
  free-lookup name a h = go (lookup name a.registered) h
    where
      go :
          (found : Option String)
          → (elim found [ none ↦ false | some v ↦ true ]) ≡ false
          → found ≡ none
      go none e = refl
      go (some f) e = cc e

  is_advertised-register_one :
      (rec : PrinterRecord) (name : String) (a : Advertiser D N)
      → is_advertised crate name (register_one crate rec a).0 ≡ (
          if rec.config.name =ˢ name
          then is_advertised crate name a || (register_one crate rec a).1
          else is_advertised crate name a)
  unfolding register_one
  is_advertised-register_one rec name a =
      is_advertised-register_info crate rec.config.name name (info_of crate a rec) a

  still-Free :
      (rec : PrinterRecord) (a : Advertiser D N) (ps : PrinterRegistry)
      → All (λ (q : PrinterRecord). (rec.config.name =ˢ q.config.name) ≡ false) ps
      → Free a ps
      → Free (register_one crate rec a).0 ps
  still-Free rec a [] apart free = tt
  still-Free rec a (p ∷ ps) apart free = (
    is_advertised-register_one rec p.config.name a ∙ rw apart.0 free.0,
    still-Free rec a ps apart.1 free.1,
  )

  -- Where every registration goes through.
  module _ (working : IsWorking crate) where
    info_of-some :
        (a : Advertiser D N) (rec : PrinterRecord) → (i : I) × (info_of crate a rec ≡ some i)
    unfolding service_info
    info_of-some a rec = go a.addrs
      where
        go :
            (addrs : List N)
            → (i : I) × (service_info crate a.host addrs a.port
                  (display_label rec.config)
                  rec.config.name
                  rec.config.make_and_model
                  rec.uuid
                ≡ some i)
        go [] =
            let (i, e) = working.describes _ _ _ _ _ _ in
            (crate.enable_addr_auto i, ap (Option.map crate.enable_addr_auto) e)
        go (n ∷ ns) = working.describes _ _ _ _ _ _

    register_one-fine :
        (rec : PrinterRecord) (a : Advertiser D N) → (register_one crate rec a).1 ≡ true
    unfolding register_one register_info
    register_one-fine rec a =
        let (i, e) = info_of-some a rec in
        ap (λ x. (register_info crate rec.config.name x a).1) e ∙ working.registers i a.daemon

    register_each-enough :
        (ps : PrinterRegistry) (a : Advertiser D N)
        → Distinct ps
        → All (λ (p : PrinterRecord). IsOwned crate live daemon owner p.config) ps
        → Free a ps
        → IsInSync crate live daemon owner a
        → (a' : Advertiser D N) × (register_each crate ps a ≡ some a')
          × IsInSync crate live daemon owner a'
          × ((name : String)
              → is_advertised crate name a'
                ≡ (is_advertised crate name a || any (is_named name) ps))
    unfolding register_each
    register_each-enough [] a apart owned free sync = (a, refl, sync, λ name. ground arith)
    register_each-enough (p ∷ ps) a apart owned free sync =
        let (a', done, sync', said) =
          register_each-enough ps (register_one crate p a).0 apart.1 owned.1
            (still-Free p a ps apart.0 free.1)
            (register_one-IsInSync crate live daemon owner p a owned.0 sync
              (free-lookup p.config.name a free.0)) in
        (
          a',
          rw (register_one-fine p a) done,
          sync',
          λ name.
              ground (arith, said name, is_advertised-register_one p name a, register_one-fine p a),
        )

    live-restrict :
        (ifaces : List (Interface N)) (d : D)
        → (d' : D) × (restrict crate ifaces d ≡ some d') × ((k : String) → live d' k ≡ live d k)
    unfolding restrict
    live-restrict [] d = (d, refl, λ k. refl)
    live-restrict (i ∷ ifaces) d =
        let (d₁, off) = working.disables d in
        let (d₂, on) = working.enables (map (λ (j : Interface N). j.name) (i ∷ ifaces)) d₁ in
        (
          d₂,
          rw off on,
          λ k. daemon.live-enable_interface _ d₁ d₂ k on ∙ daemon.live-disable_all d d₁ k off,
        )

    -- If no call of mdns-sd fails, `register_all` returns an advertiser that advertises the printers of the
    -- registry and nothing else, and the daemon answers for exactly the services that the advertiser remembers.
    -- The names of the printers differ, and so do the services that they are advertised as.
    pub register_all-enough :
        (found : Option (List (Interface N))) (allow out : Option String)
        (printers : PrinterRegistry) (port : ℕ)
        → Distinct printers
        → All (λ (p : PrinterRecord). IsOwned crate live daemon owner p.config) printers
        → (a : Advertiser D N) × (register_all crate found allow out printers port ≡ some a)
          × IsInSync crate live daemon owner a
          × ((name : String) → is_advertised crate name a ≡ any (is_named name) printers)
    unfolding register_all is_advertised
    register_all-enough found allow out printers port apart owned =
        let (d, started) = working.starts in
        let (d', restricted, same) = live-restrict (mdns_ifaces found allow) d in
        let over : D → Advertiser D N = λ e. record {
          daemon = e;
          port = port;
          host = hostname out;
          addrs = map (λ (i : Interface N). i.ip) (mdns_ifaces found allow);
          registered = [];
        } in
        let (a, done, sync, said) =
          register_each-enough printers (over d') apart owned (all_free printers) (record {
            answers = λ k. same k ∙ daemon.live-new d k started;
            owned = λ n f at_n. cc at_n;
          }) in
        let fresh : D → Option D = λ e. restrict crate (mdns_ifaces found allow) e in
        (
          a,
          ap (λ o. o >>= λ e. fresh e >>= λ e'. register_each crate printers (over e')) started
              ∙ ap (λ o. o >>= λ e'. register_each crate printers (over e')) restricted
              ∙ done,
          sync,
          said,
        )
      where
        all_free : (ps : PrinterRegistry) → All (λ (p : PrinterRecord). false ≡ false) ps
        all_free [] = tt
        all_free (p ∷ ps) = (refl, all_free ps)

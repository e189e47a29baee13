-- ===== src/Mdns/Shutdown.antt =====
-- src/mdns.rs, `drop`: what the daemon answers for when the advertiser is gone.
use ipp_printer_app.Base.{
  Bool, Bool-cases, List, String, [], any, arith, false, inl, inr, not, refl, true, ◌&&◌, ◌=ˢ◌, ◌∷◌,
  ◌≡◌,
}
use ipp_printer_app.Mdns.{
  Advertiser, MdnsCrate, Table, drop_advertiser, lookup, unregister_each, values, withdraw_all,
}
use ipp_printer_app.Mdns.Live.{IsDaemon, IsInSync, matches}

module _ {D I N : Type 0} (crate : MdnsCrate D I N) (live : D → String → Bool)
    (daemon : IsDaemon crate live) (owner : String → String) where
  -- The daemon after the loop of `drop`.
  live-unregister_each :
      (fs : List String) (d : D) (k : String)
      → live (unregister_each crate fs d) k ≡ (live d k && not (any (λ f. daemon.key f =ˢ k) fs))
  live-unregister_each [] d k = ground arith
  live-unregister_each (f ∷ fs) d k =
      ground (arith, live-unregister_each fs (crate.unregister f d) k, daemon.live-unregister f d k)

  found-values :
      (k name : String) (t : Table)
      → matches crate live daemon owner k (lookup name t) ≡ true
      → any (λ f. daemon.key f =ˢ k) (values t) ≡ true
  found-values k name [] h = h
  found-values k name (e ∷ t) h = elim (Bool-cases (e.0 =ˢ name)) [
    | inl hit ↦ let here : (daemon.key e.1 =ˢ k) ≡ true = rw hit at h in ground arith
    | inr miss ↦
        let later : any (λ f. daemon.key f =ˢ k) (values t) ≡ true =
          found-values k name t (rw miss at h) in
        ground arith
  ]

  -- When the advertiser is dropped, the daemon is shut down, and at that moment it answers for no service any
  -- more, if the daemon and the map were in sync.
  pub drop-nothing_live :
      (a : Advertiser D N)
      → IsInSync crate live daemon owner a
      → (drop_advertiser crate a ≡ crate.shutdown (withdraw_all crate a))
        × ((k : String) → live (withdraw_all crate a) k ≡ false)
  unfolding drop_advertiser withdraw_all
  drop-nothing_live a sync = (
    refl,
    λ k. ground (
      arith,
      live-unregister_each (values a.registered) a.daemon k,
      sync.answers k,
      found-values k (owner k) a.registered,
    ),
  )

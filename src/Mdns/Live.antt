-- ===== src/Mdns/Live.antt =====
-- src/mdns.rs: the services that the daemon answers for, against the map of the advertiser.
use ipp_printer_app.Base.{
  Bool, Bool-cases, List, Option, String, [], ap, eq_iff, eq_refl, false, if◌then◌else◌, inl, inr,
  none, not, refl, some, sym, true, ℕ, ◌&&◌, ◌=ˢ◌, ◌∙◌, ◌∷◌, ◌≡◌,
}
use mathlib.Core.Option
use ipp_printer_app.Printer.{PrinterConfig, PrinterRecord, display_label}
use ipp_printer_app.Texts.{concat}
use ipp_printer_app.Mdns.{
  Advertiser, AsIpAddrs, MdnsCrate, Table, info_of, insert, ipp_service, lookup, publish,
  register_info, register_one, remove, service_info, withdraw, withdraw_entry,
}
use ipp_printer_app.Mdns.Control.{lookup-insert, lookup-remove}

-- The fullname of the service that advertises a printer.
abbrev pub fullname : PrinterConfig → String
fullname cfg = concat (display_label cfg ∷ "." ∷ ipp_service ∷ [])

-- What mdns-sd documents: `live d k` says whether the daemon answers for the service that it files under `k`, and
-- `key` gives what it files a fullname under.
pub record IsDaemon {D I N : Type 0} (crate : MdnsCrate D I N) (live : D → String → Bool)
    : Type 0 where
  pub key : String → String
  pub live-new : (d : D) (k : String) → crate.new_daemon ≡ some d → live d k ≡ false
  pub live-disable_all :
      (d d' : D) (k : String) → crate.disable_all d ≡ some d' → live d' k ≡ live d k
  pub live-enable_interface :
      (names : List String) (d d' : D) (k : String)
      → crate.enable_interface names d ≡ some d'
      → live d' k ≡ live d k
  pub live-register :
      (info : I) (d : D) (k : String)
      → live (crate.register info d).0 k ≡ (
          if (crate.register info d).1 && key (crate.get_fullname info) =ˢ k
          then true
          else live d k)
  pub live-unregister :
      (f : String) (d : D) (k : String)
      → live (crate.unregister f d) k ≡ (if key f =ˢ k then false else live d k)
  pub fullname-new_service :
      (ty instance_name host : String) (ips : AsIpAddrs N) (port : ℕ) (txt : Table) (info : I)
      → crate.new_service ty instance_name host ips port txt ≡ some info
      → crate.get_fullname info ≡ concat (instance_name ∷ "." ∷ ty ∷ [])
  pub fullname-enable_addr_auto :
      (info : I) → crate.get_fullname (crate.enable_addr_auto info) ≡ crate.get_fullname info

map-some :
    {A B : Type 0} (f : A → B) (o : Option A) (b : B)
    → Option.map f o ≡ some b
    → (a : A) × (o ≡ some a) × (f a ≡ b)
map-some f none b h = cc
map-some f (some a) b h = (a, refl, cc)

module _ {D I N : Type 0} (crate : MdnsCrate D I N) (live : D → String → Bool)
    (daemon : IsDaemon crate live) (owner : String → String) where
  -- The service of the printer belongs to its name: no printer of another name has it.
  abbrev pub IsOwned : PrinterConfig → Type 0
  IsOwned cfg = owner (daemon.key (fullname cfg)) ≡ cfg.name

  abbrev pub matches : String → Option String → Bool
  matches k none = false
  matches k (some f) = daemon.key f =ˢ k

  -- The daemon answers for exactly the services of the map, and each of them belongs to its printer.
  pub record IsInSync (a : Advertiser D N) : Type 0 where
    pub answers : (k : String) → live a.daemon k ≡ matches k (lookup (owner k) a.registered)
    pub owned : (name f : String) → lookup name a.registered ≡ some f → owner (daemon.key f) ≡ name

  fullname-info_of :
      (a : Advertiser D N) (rec : PrinterRecord) (info : I)
      → info_of crate a rec ≡ some info
      → crate.get_fullname info ≡ fullname rec.config
  unfolding service_info
  fullname-info_of a rec info h = go a.addrs h
    where
      go :
          (addrs : List N)
          → service_info crate a.host addrs a.port
              (display_label rec.config)
              rec.config.name
              rec.config.make_and_model
              rec.uuid
            ≡ some info
          → crate.get_fullname info ≡ fullname rec.config
      go [] e =
          let (i, made, same) = map-some crate.enable_addr_auto _ info e in
          ap crate.get_fullname (sym same)
          ∙ daemon.fullname-enable_addr_auto i
          ∙ daemon.fullname-new_service _ _ _ _ _ _ i made
      go (n ∷ ns) e = daemon.fullname-new_service _ _ _ _ _ _ info e

  added-answers :
      (k f : String) (t : Table) (fine before : Bool)
      → before ≡ matches k (lookup (owner k) t)
      → lookup (owner (daemon.key f)) t ≡ none
      → (if fine && daemon.key f =ˢ k then true else before)
        ≡ matches k (lookup (owner k) (if fine then insert (owner (daemon.key f)) f t else t))
  added-answers k f t false before same free = same
  added-answers k f t true before same free = elim (Bool-cases (daemon.key f =ˢ k)) [
    | inl hit ↦
        rw
          (
            lookup-insert (owner (daemon.key f)) f (owner k) t,
            hit,
            (eq_iff (daemon.key f) k).0 hit,
            eq_refl (owner k),
          )
          (sym hit)
    | inr miss ↦ elim (Bool-cases (owner (daemon.key f) =ˢ owner k)) [
      | inl same_owner ↦
          let held : lookup (owner k) t ≡ none =
            ap (λ n. lookup n t) (sym ((eq_iff (owner (daemon.key f)) (owner k)).0 same_owner))
            ∙ free in
          rw (miss, lookup-insert (owner (daemon.key f)) f (owner k) t, same_owner, same, held)
            (sym miss)
      | inr apart ↦ rw (miss, lookup-insert (owner (daemon.key f)) f (owner k) t, apart) same
    ]
  ]

  added-owned :
      (g : String) (t : Table) (fine : Bool)
      → ((n f : String) → lookup n t ≡ some f → owner (daemon.key f) ≡ n)
      → (n f : String) → lookup n (if fine then insert (owner (daemon.key g)) g t else t) ≡ some f
      → owner (daemon.key f) ≡ n
  added-owned g t false own n f at_n = own n f at_n
  added-owned g t true own n f at_n = elim (Bool-cases (owner (daemon.key g) =ˢ n)) [
    | inl hit ↦
        let here : some g ≡ some f = rw (lookup-insert (owner (daemon.key g)) g n t, hit) at at_n in
        rw (← (eq_iff (owner (daemon.key g)) n).0 hit) (cc here)
    | inr miss ↦ own n f (rw (lookup-insert (owner (daemon.key g)) g n t, miss) at at_n)
  ]

  register_info-IsInSync :
      (name : String) (info : Option I) (a : Advertiser D N)
      → IsInSync a
      → lookup name a.registered ≡ none
      → ((i : I) → info ≡ some i → owner (daemon.key (crate.get_fullname i)) ≡ name)
      → IsInSync (register_info crate name info a).0
  unfolding register_info
  register_info-IsInSync name none a sync free own = sync
  register_info-IsInSync name (some info) a sync free own = rw (← own info refl) (record {
    answers = λ k.
        daemon.live-register info a.daemon k
        ∙ added-answers k (crate.get_fullname info) a.registered (crate.register info a.daemon).1
            (live a.daemon k) (sync.answers k)
            (ap (λ n. lookup n a.registered) (own info refl) ∙ free);
    owned = λ n f at_n.
        added-owned (crate.get_fullname info) a.registered (crate.register info a.daemon).1
          sync.owned n f at_n;
  })

  pub register_one-IsInSync :
      (rec : PrinterRecord) (a : Advertiser D N)
      → IsOwned rec.config
      → IsInSync a
      → lookup rec.config.name a.registered ≡ none
      → IsInSync (register_one crate rec a).0
  unfolding register_one
  register_one-IsInSync rec a own sync free =
      register_info-IsInSync rec.config.name (info_of crate a rec) a sync free
        (λ i e. ap (λ f. owner (daemon.key f)) (fullname-info_of a rec i e) ∙ own)

  unless_held :
      (found : Option String) (x y : Advertiser D N)
      → (found ≡ none → IsInSync x)
      → IsInSync y
      → IsInSync (if not (elim found [ none ↦ false | some v ↦ true ]) then x else y)
  unless_held none x y h k = h refl
  unless_held (some f) x y h k = k

  pub publish-IsInSync :
      (rec : PrinterRecord) (a : Advertiser D N)
      → IsOwned rec.config
      → IsInSync a
      → IsInSync (publish crate rec a)
  unfolding publish
  publish-IsInSync rec a own sync =
      unless_held (lookup rec.config.name a.registered) (register_one crate rec a).0 a
        (register_one-IsInSync rec a own sync) sync

  removed-answers :
      (k g : String) (t : Table) (before : Bool)
      → before ≡ matches k (lookup (owner k) t)
      → lookup (owner (daemon.key g)) t ≡ some g
      → (if daemon.key g =ˢ k then false else before)
        ≡ matches k (lookup (owner k) (remove (owner (daemon.key g)) t))
  removed-answers k g t before same held = elim (Bool-cases (daemon.key g =ˢ k)) [
    | inl hit ↦
        rw
          (
            lookup-remove (owner (daemon.key g)) (owner k) t,
            hit,
            (eq_iff (daemon.key g) k).0 hit,
            eq_refl (owner k),
          )
          refl
    | inr miss ↦ elim (Bool-cases (owner (daemon.key g) =ˢ owner k)) [
      | inl same_owner ↦
          let here : lookup (owner k) t ≡ some g =
            ap (λ n. lookup n t) (sym ((eq_iff (owner (daemon.key g)) (owner k)).0 same_owner))
            ∙ held in
          rw (miss, lookup-remove (owner (daemon.key g)) (owner k) t, same_owner, same, here) miss
      | inr apart ↦ rw (miss, lookup-remove (owner (daemon.key g)) (owner k) t, apart) same
    ]
  ]

  removed-owned :
      (gone : String) (t : Table)
      → ((n f : String) → lookup n t ≡ some f → owner (daemon.key f) ≡ n)
      → (n f : String) → lookup n (remove gone t) ≡ some f
      → owner (daemon.key f) ≡ n
  removed-owned gone t own n f at_n = elim (Bool-cases (gone =ˢ n)) [
    | inl hit ↦
        let none_left : none ≡ some f = rw (lookup-remove gone n t, hit) at at_n in cc none_left
    | inr miss ↦ own n f (rw (lookup-remove gone n t, miss) at at_n)
  ]

  withdraw_entry-IsInSync :
      (name : String) (found : Option String) (a : Advertiser D N)
      → lookup name a.registered ≡ found
      → IsInSync a
      → IsInSync (withdraw_entry crate name found a)
  withdraw_entry-IsInSync name none a e sync = sync
  withdraw_entry-IsInSync name (some g) a e sync =
      let own : owner (daemon.key g) ≡ name = sync.owned name g e in
      record {
        answers = λ k.
            daemon.live-unregister g a.daemon k
            ∙ removed-answers k g a.registered (live a.daemon k) (sync.answers k)
                (ap (λ n. lookup n a.registered) own ∙ e)
            ∙ ap (λ n. matches k (lookup (owner k) (remove n a.registered))) own;
        owned = λ n f at_n. removed-owned name a.registered sync.owned n f at_n;
      }

  pub withdraw-IsInSync :
      (name : String) (a : Advertiser D N) → IsInSync a → IsInSync (withdraw crate name a)
  unfolding withdraw
  withdraw-IsInSync name a sync =
      withdraw_entry-IsInSync name (lookup name a.registered) a refl sync

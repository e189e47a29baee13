-- ===== src/Mdns/Control.antt =====
-- src/mdns.rs: `Advertiser` behind the trait that the status poller uses.
use ipp_printer_app.Base.{
  Option, String, [], arith, eq_iff, false, if◌then◌else◌, none, refl, some, true, ◌=ˢ◌, ◌||◌, ◌∷◌,
  ◌≡◌,
}
use ipp_printer_app.Printer.{PrinterRecord}
use ipp_printer_app.Status.{AdvertiserControl}
use ipp_printer_app.Mdns.{
  Advertiser, MdnsCrate, Table, contains_key, info_of, insert, is_advertised, lookup, publish,
  register_info, register_one, remove, withdraw, withdraw_entry,
}

pub lookup-remove :
    (gone name : String) (t : Table)
    → lookup name (remove gone t) ≡ (if gone =ˢ name then none else lookup name t)
lookup-remove gone name [] = ground arith
lookup-remove gone name (e ∷ t) =
    ground (arith, eq_iff e.0 gone, eq_iff e.0 name, eq_iff gone name, lookup-remove gone name t)

pub lookup-insert :
    (k v name : String) (t : Table)
    → lookup name (insert k v t) ≡ (if k =ˢ name then some v else lookup name t)
lookup-insert k v name t = ground (arith, lookup-remove k name t)

contains_key-insert :
    (k v name : String) (t : Table)
    → contains_key name (insert k v t) ≡ (if k =ˢ name then true else contains_key name t)
contains_key-insert k v name t = ground (arith, lookup-insert k v name t)

contains_key-remove :
    (gone name : String) (t : Table)
    → contains_key name (remove gone t) ≡ (if gone =ˢ name then false else contains_key name t)
contains_key-remove gone name t = ground (arith, lookup-remove gone name t)

module _ {D I N : Type 0} (crate : MdnsCrate D I N) where
  pub is_advertised-register_info :
      (key name : String) (info : Option I) (a : Advertiser D N)
      → is_advertised crate name (register_info crate key info a).0 ≡ (
          if key =ˢ name
          then is_advertised crate name a || (register_info crate key info a).1
          else is_advertised crate name a)
  unfolding is_advertised register_info
  is_advertised-register_info key name none a = ground arith
  is_advertised-register_info key name (some info) a =
      ground (arith, contains_key-insert key (crate.get_fullname info) name a.registered)

  pub is_advertised-publish :
      (rec : PrinterRecord) (name : String) (a : Advertiser D N)
      → is_advertised crate name (publish crate rec a) ≡ (
          if rec.config.name =ˢ name
          then is_advertised crate name a || (register_one crate rec a).1
          else is_advertised crate name a)
  unfolding publish register_one is_advertised
  is_advertised-publish rec name a = ground (
    arith,
    eq_iff rec.config.name name,
    is_advertised-register_info rec.config.name name (info_of crate a rec) a,
  )

  is_advertised-entry :
      (gone name : String) (a : Advertiser D N) (found : Option String)
      → lookup gone a.registered ≡ found
      → is_advertised crate name (withdraw_entry crate gone found a)
        ≡ (if gone =ˢ name then false else is_advertised crate name a)
  unfolding is_advertised
  is_advertised-entry gone name a none e = ground (arith, eq_iff gone name)
  is_advertised-entry gone name a (some f) e = contains_key-remove gone name a.registered

  pub is_advertised-withdraw :
      (gone name : String) (a : Advertiser D N)
      → is_advertised crate name (withdraw crate gone a)
        ≡ (if gone =ˢ name then false else is_advertised crate name a)
  unfolding withdraw
  is_advertised-withdraw gone name a =
      is_advertised-entry gone name a (lookup gone a.registered) refl

  -- `impl AdvertiserControl for Advertiser`.
  unfoldable pub control : AdvertiserControl (Advertiser D N)
  control = record {
    publish = publish crate;
    withdraw = withdraw crate;
    is_advertised = is_advertised crate;
    registers = λ rec a. (register_one crate rec a).1;
    is_advertised-publish = is_advertised-publish;
    is_advertised-withdraw = is_advertised-withdraw;
  }

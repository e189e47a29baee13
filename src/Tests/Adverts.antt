-- ===== src/Tests/Adverts.antt =====
-- Checks of the adverts, with a daemon that is the set of the services it answers for.
use ipp_printer_app.Base.{
  Bool, Bool-cases, List, String, [], any, ap, arith, eq_iff, false, if◌then◌else◌, inl, inr, map,
  none, refl, some, sym, true, ℕ, ◌=ˢ◌, ◌∙◌, ◌∷◌, ◌≡◌,
}
use ipp_printer_app.Printer.{PrinterRecord, display_label, is_named}
use ipp_printer_app.Texts.{concat}
use ipp_printer_app.Texts.{chars, from_chars}
use ipp_printer_app.Mdns.{
  is_listed, Advertiser, Interface, MdnsCrate, bare_uuid, is_advertised, lookup, mdns_ifaces,
  register_all, txt_record, withdraw,
}
use ipp_printer_app.Mdns.Control.{control}
use ipp_printer_app.Mdns.Live.{IsDaemon, IsInSync, fullname}
use ipp_printer_app.Mdns.AllowList.{Entry, written, is_listed-written}
use ipp_printer_app.Mdns.Shared.{withdraw_shared}
use ipp_printer_app.Mdns.Start.{Distinct, IsWorking, register_all-enough}
use ipp_printer_app.Mdns.Rounds.{AllOwned}
use ipp_printer_app.Tests.{labels, printer}

abbrev pub Daemon : Type 0
Daemon = String → Bool

abbrev pub dnssd : MdnsCrate Daemon String ℕ
dnssd = record {
  new_daemon = some (λ k. false);
  disable_all = λ d. some d;
  enable_interface = λ names d. some d;
  new_service = λ ty instance_name host ips port txt. some (concat (instance_name ∷ "." ∷ ty ∷ []));
  enable_addr_auto = λ i. i;
  get_fullname = λ i. i;
  register = λ i d. ((λ k. if i =ˢ k then true else d k), true);
  unregister = λ f d k. if f =ˢ k then false else d k;
  shutdown = λ d. d;
}

abbrev pub live : Daemon → String → Bool
live d k = d k

pub some-inj : (a b : String) → some a ≡ some b → a ≡ b
some-inj a b e = cc e

pub live-new : (d : Daemon) (k : String) → dnssd.new_daemon ≡ some d → live d k ≡ false
live-new d k e = ap (λ o. elim o [ none ↦ false | some x ↦ x k ]) (sym e)

pub same_daemon : (d d' : Daemon) (k : String) → some d ≡ some d' → live d' k ≡ live d k
same_daemon d d' k e = ap (λ o. elim o [ none ↦ false | some x ↦ x k ]) (sym e)

abbrev pub dnssd-IsDaemon : IsDaemon dnssd live
dnssd-IsDaemon = record {
  key = λ f. f;
  live-new = live-new;
  live-disable_all = same_daemon;
  live-enable_interface = λ names. same_daemon;
  live-register = λ i d k. refl;
  live-unregister = λ f d k. refl;
  fullname-new_service = λ ty instance_name host ips port txt i e. some-inj _ _ (sym e);
  fullname-enable_addr_auto = λ i. refl;
}

dnssd-IsWorking : IsWorking dnssd
dnssd-IsWorking = record {
  starts = ((λ k. false), refl);
  disables = λ d. (d, refl);
  enables = λ names d. (d, refl);
  describes = λ ty instance_name host ips port txt. (concat (instance_name ∷ "." ∷ ty ∷ []), refl);
  registers = λ i d. refl;
}

abbrev pub receipts : PrinterRecord
receipts = record printer {
  config = record labels { name = "receipts"; display_name = "Receipts"; device_uri = "usb://r" };
}

-- A second printer of the model of `printer`.
abbrev spare : PrinterRecord
spare = record printer { config = record labels { name = "spare"; device_uri = "usb://spare" } }

abbrev pub owner : String → String
owner f = if f =ˢ "Receipts._ipp._tcp.local." then "receipts" else "labels"

two-Distinct : Distinct (printer ∷ receipts ∷ [])
two-Distinct = ((refl, tt), (tt, tt))

pub two-AllOwned : AllOwned dnssd live dnssd-IsDaemon owner (printer ∷ receipts ∷ [])
unfolding display_label
two-AllOwned = (refl, (refl, tt))

abbrev lan : List (Interface ℕ)
lan =
    record { name = "lo"; ip = 1; is_link_local = false; is_loopback = true; is_oper_up = true }
    ∷ record {
      name = "veth0";
      ip = 2;
      is_link_local = false;
      is_loopback = false;
      is_oper_up = true;
    }
    ∷ record { name = "br0"; ip = 3; is_link_local = false; is_loopback = false; is_oper_up = true }
    ∷ []

bridge :
    mdns_ifaces (some lan) none
    ≡ record { name = "br0"; ip = 3; is_link_local = false; is_loopback = false; is_oper_up = true }
      ∷ []
unfolding mdns_ifaces
bridge = refl

named :
    map (λ (i : Interface ℕ). i.name) (mdns_ifaces (some lan) (some "lo, veth0"))
    ≡ "lo" ∷ "veth0" ∷ []
unfolding mdns_ifaces
named = refl

bare : bare_uuid "urn:uuid:12-34" ≡ "12-34"
unfolding bare_uuid
bare = refl

resource : lookup "rp" (txt_record "host" 8631 "labels" "Label 203" "12") ≡ some "ipp/print/labels"
unfolding txt_record
resource = refl

register_all-enough_example :
    (a : Advertiser Daemon ℕ) × (register_all dnssd
        (some lan)
        none
        (some "host")
        (printer ∷ receipts ∷ [])
        8631
      ≡ some a)
    × IsInSync dnssd live dnssd-IsDaemon owner a
    × ((name : String) → is_advertised dnssd name a ≡ any (is_named name) (printer ∷ receipts ∷ []))
register_all-enough_example =
    register_all-enough dnssd live dnssd-IsDaemon owner dnssd-IsWorking (some lan) none
      (some "host") (printer ∷ receipts ∷ []) 8631 two-Distinct two-AllOwned

abbrev label_service : String
label_service = "Label 203._ipp._tcp.local."

abbrev pub one : Advertiser Daemon ℕ
one = record {
  daemon = λ k. label_service =ˢ k;
  port = 8631;
  host = "host";
  addrs = [];
  registered = ("labels", label_service) ∷ [];
}

owned_by_labels : (k : String) → (label_service =ˢ k) ≡ true → owner k ≡ "labels"
owned_by_labels k h = rw (← (eq_iff label_service k).0 h) refl

one-owned : (name f : String) → lookup name one.registered ≡ some f → owner f ≡ name
one-owned name f e = elim (Bool-cases ("labels" =ˢ name)) [
  | inl hit ↦
      let same : label_service ≡ f = some-inj _ _ (rw hit at e) in
      ap owner (sym same) ∙ (eq_iff "labels" name).0 hit
  | inr miss ↦ let gone : none ≡ some f = rw miss at e in cc gone
]

pub one-IsInSync : IsInSync dnssd live dnssd-IsDaemon owner one
one-IsInSync = record {
  answers = λ k. ground (arith, owned_by_labels k, eq_iff "labels" (owner k));
  owned = one-owned;
}

abbrev pair : Advertiser Daemon ℕ
pair = record one { registered = ("spare", label_service) ∷ ("labels", label_service) ∷ [] }

withdraw_shared_example :
    let a' = withdraw dnssd "labels" pair in
    ((control dnssd).is_advertised "spare" a' ≡ true)
    × (live a'.daemon (dnssd-IsDaemon.key (fullname spare.config)) ≡ false)
unfolding display_label
withdraw_shared_example =
    withdraw_shared dnssd live dnssd-IsDaemon printer spare pair refl refl refl refl

-- The value ` eth0, wlan0`.
abbrev ethernet : Entry
ethernet = record { before = chars " "; name = chars "eth0"; after = [] }

abbrev wireless : Entry
wireless = record { before = chars " "; name = chars "wlan0"; after = [] }

is_listed-written_example :
    is_listed (from_chars (written ethernet (wireless ∷ []))) "wlan0"
    ≡ any (λ (x : Entry). from_chars x.name =ˢ "wlan0") (ethernet ∷ wireless ∷ [])
is_listed-written_example =
    is_listed-written "wlan0" ethernet (wireless ∷ [])
      (record { before = refl; name = refl; after = refl })
      (record { before = refl; name = refl; after = refl }, tt)

listed : is_listed " eth0, wlan0" "wlan0" ≡ true
unfolding is_listed
listed = refl

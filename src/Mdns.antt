-- ===== src/Mdns.antt =====
-- src/mdns.rs: the DNS-SD adverts of the printers. The crates mdns-sd and if-addrs, the environment and the
-- `hostname` command are arguments; the map of the registered names is an association list.
pub mod Control
pub mod Live
pub mod Shutdown
pub mod Start
pub mod Rounds
pub mod Shared
pub mod AllowList
use ipp_printer_app.Base.{
  ◌>>=◌, Bool, List, Option, String, [], any, code, false, if◌then◌else◌, keep, map, none, not,
  some, true, ℕ, ◌&&◌, ◌/◌, ◌=ˢ◌, ◌∷◌,
}
use mathlib.Core.Option
use ipp_printer_app.Printer.{PrinterRecord, PrinterRegistry, display_label}
use ipp_printer_app.Texts.{
  chars, concat, from_chars, show, split_from, starts_with, strip_prefix_or_all, trim,
}

abbrev pub ipp_service : String
ipp_service = "_ipp._tcp.local."

-- An address argument of `ServiceInfo::new`: a text, or a list of addresses.
pub data AsIpAddrs (N : Type 0) : Type 0 where
  from_text : String → AsIpAddrs N
  from_addrs : List N → AsIpAddrs N

-- A `HashMap` from texts.
abbrev pub Table : Type 0
Table = List (String × String)

abbrev pub lookup : String → Table → Option String
lookup k [] = none
lookup k (e ∷ es) = if e.0 =ˢ k then some e.1 else lookup k es

abbrev pub remove : String → Table → Table
remove k t = keep (λ e. not (e.0 =ˢ k)) t

abbrev pub insert : String → String → Table → Table
insert k v t = (k, v) ∷ remove k t

abbrev pub contains_key : String → Table → Bool
contains_key k t = elim (lookup k t) [ none ↦ false | some v ↦ true ]

abbrev pub values : Table → List String
values t = map (λ e. e.1) t

-- What the code calls of mdns-sd, with daemons `D`, service descriptions `I` and addresses `N`. A call that
-- fails gives `none`, or `false` where the daemon is still held afterwards.
pub record MdnsCrate (D I N : Type 0) : Type 0 where
  pub new_daemon : Option D
  pub disable_all : D → Option D
  pub enable_interface : List String → D → Option D
  pub new_service : String → String → String → AsIpAddrs N → ℕ → Table → Option I
  pub enable_addr_auto : I → I
  pub get_fullname : I → String
  pub register : I → D → D × Bool
  pub unregister : String → D → D
  pub shutdown : D → D

-- What the code reads of an `if_addrs::Interface`.
pub record Interface (N : Type 0) : Type 0 where
  pub name : String
  pub ip : N
  pub is_link_local : Bool
  pub is_loopback : Bool
  pub is_oper_up : Bool

abbrev pub virtual_iface_prefixes : List String
virtual_iface_prefixes = "veth" ∷ "docker" ∷ "br-" ∷ "virbr" ∷ "vnet" ∷ "vmnet" ∷ "vboxnet" ∷ []

unfoldable pub is_virtual_iface : String → Bool
unfolding starts_with
is_virtual_iface name = any (λ p. starts_with (chars p) (chars name)) virtual_iface_prefixes

-- Whether the comma-separated list names the interface.
unfoldable pub is_listed : String → String → Bool
unfolding split_from trim
is_listed allow name = any (λ n. from_chars (trim n) =ˢ name) (split_from b',' [] (chars allow))

module _ {N : Type 0} where
  -- The second filter.
  unfoldable pub is_wanted : Option String → Interface N → Bool
  unfolding is_virtual_iface is_listed
  is_wanted (some allow) iface = is_listed allow iface.name
  is_wanted none iface =
      not iface.is_loopback && (iface.is_oper_up && not (is_virtual_iface iface.name))

  -- `none` stands for a failed enumeration.
  unfoldable pub mdns_ifaces : Option (List (Interface N)) → Option String → List (Interface N)
  unfolding is_wanted
  mdns_ifaces none allow = []
  mdns_ifaces (some ifaces) allow =
      keep (is_wanted allow) (keep (λ (i : Interface N). not i.is_link_local) ifaces)

-- From the output of the command, if it ran and printed UTF-8.
unfoldable pub hostname : Option String → String
unfolding trim
hostname none = "localhost"
hostname (some out) =
    let h = from_chars (trim (chars out)) in if not (h =ˢ "") then h else "localhost"

unfoldable pub bare_uuid : String → String
unfolding strip_prefix_or_all
bare_uuid uuid = strip_prefix_or_all "urn:uuid:" uuid

-- The TXT record, an entry inserted after the other.
unfoldable pub txt_record : String → ℕ → String → String → String → Table
unfolding bare_uuid show
txt_record host port logical_name make_and_model uuid =
    let t0 = insert "rp" (concat ("ipp/print/" ∷ logical_name ∷ [])) [] in
    let t1 = if not (bare_uuid uuid =ˢ "") then insert "UUID" (bare_uuid uuid) t0 else t0 in
    let t2 = insert "note" make_and_model (insert "ty" make_and_model t1) in
    let t3 = insert "product" (concat ("(" ∷ make_and_model ∷ ")" ∷ [])) t2 in
    let t4 =
      insert "pdl" "image/pwg-raster,application/vnd.cups-raster,application/octet-stream" t3 in
    let t5 = insert "Duplex" "F" (insert "Color" "F" (insert "URF" "W8,SRGB24,CP1,RS203" t4)) in
    let t6 = insert "adminurl" (concat ("http://" ∷ host ∷ ".local:" ∷ show port ∷ "/" ∷ [])) t5 in
    insert "txtvers" "1" (insert "qtotal" "1" (insert "priority" "0" t6))

-- `registered` maps the name of a printer to the fullname of its service.
pub record Advertiser (D N : Type 0) : Type 0 where
  pub daemon : D
  pub port : ℕ
  pub host : String
  pub addrs : List N
  pub registered : Table

module _ {D I N : Type 0} (crate : MdnsCrate D I N) where
  unfoldable pub service_info : String → List N → ℕ → String → String → String → String → Option I
  unfolding txt_record
  service_info host [] port instance_name logical_name make_and_model uuid =
      Option.map crate.enable_addr_auto (
        crate.new_service ipp_service instance_name (concat (host ∷ ".local." ∷ [])) (from_text "")
          port (txt_record host port logical_name make_and_model uuid))
  service_info host (addr ∷ addrs) port instance_name logical_name make_and_model uuid =
      crate.new_service ipp_service instance_name (concat (host ∷ ".local." ∷ []))
        (from_addrs (addr ∷ addrs)) port (txt_record host port logical_name make_and_model uuid)

  -- The arguments of `service_info` in `register_one`.
  abbrev pub info_of : Advertiser D N → PrinterRecord → Option I
  unfolding service_info
  info_of a rec =
      service_info a.host a.addrs a.port (display_label rec.config) rec.config.name
        rec.config.make_and_model rec.uuid

  -- `register_one` from the description of the service on; `false` is an error.
  unfoldable pub register_info : String → Option I → Advertiser D N → Advertiser D N × Bool
  register_info name none a = (a, false)
  register_info name (some info) a =
      let (daemon, fine) = crate.register info a.daemon in
      (
        record a {
          daemon = daemon;
          registered =
              if fine then insert name (crate.get_fullname info) a.registered else a.registered;
        },
        fine,
      )

  unfoldable pub register_one : PrinterRecord → Advertiser D N → Advertiser D N × Bool
  unfolding register_info
  register_one rec a = register_info rec.config.name (info_of a rec) a

  -- The loop of `register_all`, which a failure ends.
  unfoldable pub register_each : PrinterRegistry → Advertiser D N → Option (Advertiser D N)
  unfolding register_one
  register_each [] a = some a
  register_each (rec ∷ recs) a =
      let (a', fine) = register_one rec a in
      let rest = register_each recs a' in if fine then rest else none

  -- The choice of interfaces on a fresh daemon.
  unfoldable pub restrict : List (Interface N) → D → Option D
  restrict [] d = some d
  restrict (i ∷ ifaces) d = do
    d' ← crate.disable_all d
    crate.enable_interface (map (λ (j : Interface N). j.name) (i ∷ ifaces)) d'

  -- The arguments are the enumeration of the interfaces, the value of the environment variable and the output of
  -- `hostname`.
  unfoldable pub register_all :
      Option (List (Interface N))
      → Option String
      → Option String
      → PrinterRegistry
      → ℕ
      → Option (Advertiser D N)
  unfolding mdns_ifaces hostname register_each restrict
  register_all found allow out printers port = do
    fresh ← crate.new_daemon
    daemon ← restrict (mdns_ifaces found allow) fresh
    register_each printers (record {
      daemon = daemon;
      port = port;
      host = hostname out;
      addrs = map (λ (i : Interface N). i.ip) (mdns_ifaces found allow);
      registered = [];
    })

  unfoldable pub publish : PrinterRecord → Advertiser D N → Advertiser D N
  unfolding register_one
  publish rec a =
      if not (contains_key rec.config.name a.registered) then (register_one rec a).0 else a

  abbrev pub withdraw_entry : String → Option String → Advertiser D N → Advertiser D N
  withdraw_entry name none a = a
  withdraw_entry name (some fullname) a = record a {
    daemon = crate.unregister fullname a.daemon;
    registered = remove name a.registered;
  }

  unfoldable pub withdraw : String → Advertiser D N → Advertiser D N
  withdraw name a = withdraw_entry name (lookup name a.registered) a

  unfoldable pub is_advertised : String → Advertiser D N → Bool
  is_advertised name a = contains_key name a.registered

  abbrev pub unregister_each : List String → D → D
  unregister_each [] d = d
  unregister_each (f ∷ fs) d = unregister_each fs (crate.unregister f d)

  -- The loop of `Drop::drop`.
  unfoldable pub withdraw_all : Advertiser D N → D
  withdraw_all a = unregister_each (values a.registered) a.daemon

  -- `Drop::drop`, down to the daemon it leaves.
  unfoldable pub drop_advertiser : Advertiser D N → D
  unfolding withdraw_all
  drop_advertiser a = crate.shutdown (withdraw_all a)

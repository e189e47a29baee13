-- ===== src/Tests/Polling.antt =====
-- Checks of the status poller, with an advertiser that holds the list of the advertised names.
use ipp_printer_app.Base.{
  Bool, String, [], arith, false, find, if◌then◌else◌, none, refl, some, true, ◌&&◌, ◌=ˢ◌, ◌||◌,
  ◌∷◌, ◌≡◌,
}
use mathlib.Core.Option
use ipp_printer_app.Flags.Reason
use ipp_printer_app.Device.{PollStatus}
use ipp_printer_app.Printer.{is_named}
use ipp_printer_app.Status.{AdvertiserControl, reachable, apply_status, poll_one}
use ipp_printer_app.Status.Apply.{advertised, poll_one_updates}
use ipp_printer_app.Tests.{printer}

abbrev pub Adverts : Type 0
Adverts = String → Bool

abbrev pub board : AdvertiserControl Adverts
board = record {
  publish = λ rec a name. a name || rec.config.name =ˢ name;
  withdraw = λ gone a name. if gone =ˢ name then false else a name;
  is_advertised = λ name a. a name;
  registers = λ rec a. true;
  is_advertised-publish = λ rec name a. ground arith;
  is_advertised-withdraw = λ gone name a. refl;
}

abbrev pub nothing : Adverts
nothing name = false

abbrev pub ready : PollStatus
ready = record { reasons = Reason.empty; ready_media = none; supply_percent = none }

poll_one_updates_example :
    let (printers', adv', changed) =
      poll_one board "labels" (some ready) (printer ∷ [], some nothing) in
    (find (is_named "labels") printers' ≡ (
      if "labels" =ˢ "labels"
      then Option.map (λ p. (apply_status ready p).0) (find (is_named "labels") (printer ∷ []))
      else find (is_named "labels") (printer ∷ [])))
    × (advertised board "labels" adv' ≡ (
        reachable ready
        && (board.is_advertised "labels" nothing
            || board.registers (apply_status ready printer).0 nothing)))
    × (advertised board "labels" adv' ≡ (
        if "labels" =ˢ "labels"
        then reachable ready
          && (board.is_advertised "labels" nothing
              || board.registers (apply_status ready printer).0 nothing)
        else board.is_advertised "labels" nothing))
    × (changed ≡ (apply_status ready printer).1)
poll_one_updates_example =
    poll_one_updates board "labels" "labels" ready (printer ∷ []) nothing printer refl

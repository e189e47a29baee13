-- ===== src/Printer/Registry.antt =====
-- src/printer.rs: looking a printer up by name after one record was rewritten.
use ipp_printer_app.Base.{
  Bool-cases, Option, String, [], arith, eq_iff, find, if◌then◌else◌, inl, inr, none, refl, some,
  true, update_first, ℕ, ◌=ˢ◌, ◌∷◌, ◌≡◌,
}
use mathlib.Core.Option
use ipp_printer_app.Device.{ReadyMedia}
use ipp_printer_app.Printer.{
  PrinterConfig, PrinterRecord, PrinterRegistry, is_named, is_first, drop_media, insert_media,
  learn_media, set_ready_media,
}
use ipp_printer_app.Printer

abbrev pub KeepsName : (PrinterRecord → PrinterRecord) → Type 0
KeepsName f = (p : PrinterRecord) → (f p).config.name ≡ p.config.name

pub find-update_named :
    (name other : String) (f : PrinterRecord → PrinterRecord) (ps : PrinterRegistry)
    → KeepsName f
    → find (is_named other) (update_first (is_named name) f ps) ≡ (
        if name =ˢ other then Option.map f (find (is_named other) ps) else find (is_named other) ps)
find-update_named name other f [] k = ground arith
find-update_named name other f (p ∷ ps) k = ground (
  arith,
  k p,
  eq_iff name other,
  eq_iff p.config.name name,
  eq_iff p.config.name other,
  find-update_named name other f ps k,
)

name-drop_media : (p : Option ℕ) (cfg : PrinterConfig) → (drop_media p cfg).name ≡ cfg.name
unfolding drop_media
name-drop_media none cfg = refl
name-drop_media (some i) cfg = refl

pub name-learn_media :
    (media : ReadyMedia) (cfg : PrinterConfig) → (learn_media media cfg).name ≡ cfg.name
unfolding learn_media
name-learn_media media cfg = elim (Bool-cases (is_first media.name cfg.media_names)) [
  | inl front ↦ rw front
  | inr behind ↦ rw behind (name-drop_media (Printer.position media.name cfg.media_names) cfg)
]

pub learn_media_front :
    (media : ReadyMedia) (cfg : PrinterConfig)
    → is_first media.name cfg.media_names ≡ true
    → learn_media media cfg ≡ cfg
unfolding learn_media
learn_media_front media cfg front = rw front

pub find-is_named :
    (name : String) (ps : PrinterRegistry) (p : PrinterRecord)
    → find (is_named name) ps ≡ some p
    → p.config.name ≡ name
find-is_named name [] p h = cc
find-is_named name (q ∷ ps) p h = elim (Bool-cases (q.config.name =ˢ name)) [
  | inl hit ↦ let same : some q ≡ some p = rw hit at h in ground (arith, eq_iff q.config.name name)
  | inr miss ↦ find-is_named name ps p (rw miss at h)
]

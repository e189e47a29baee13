-- ===== src/Printer/Media.antt =====
-- src/printer.rs, `set_ready_media`: the loaded roll in the printer's lists of media.
use ipp_printer_app.Base.{
  eq_refl, true, ap, sym, Option-cases, ◌∙◌, refl, inr, eq_iff, inl, arith, Bool-cases, List,
  Option, String, [], false, if◌then◌else◌, none, some, ℕ, ◌+◌, ◌=ˢ◌, ◌∷◌, ◌≡◌, ◌≢◌, ◌≤◌,
}
use ipp_printer_app.Base.Int.{ℤ}
use ipp_printer_app.Device.{ReadyMedia}
use ipp_printer_app.Printer.Registry.{learn_media_front}
use ipp_printer_app.Printer.{
  PrinterConfig, PrinterRecord, position, remove_at, first, is_first, same_size, drop_media,
  learn_media, set_ready_media,
}
use ipp_printer_app.Printer.Positions.{
  count_name, without, count_name-without_self, count_name-without_other, shift-none,
}

-- The names after `learn_media`.
abbrev learned : String → List String → List String
learned m ns = if is_first m ns then ns else m ∷ without (position m ns) ns

names-drop_media :
    (p : Option ℕ) (cfg : PrinterConfig)
    → (drop_media p cfg).media_names ≡ without p cfg.media_names
unfolding drop_media
names-drop_media none cfg = refl
names-drop_media (some i) cfg = refl

names-learn_media :
    (media : ReadyMedia) (cfg : PrinterConfig)
    → (learn_media media cfg).media_names ≡ learned media.name cfg.media_names
unfolding learn_media
names-learn_media media cfg = elim (Bool-cases (is_first media.name cfg.media_names)) [
  | inl front ↦ rw front
  | inr behind ↦ rw (behind, names-drop_media (position media.name cfg.media_names) cfg)
]

position-none : (m : String) (ns : List String) → position m ns ≡ none → count_name m ns ≡ 0
position-none m [] e = refl
position-none m (n ∷ ns) e = elim (Bool-cases (n =ˢ m)) [
  | inl hit ↦ let no : some 0 ≡ none = rw hit at e in cc no
  | inr miss ↦
      rw miss (omega (arith, position-none m ns (shift-none (position m ns) (rw miss at e))))
]

count_name-without_once :
    (m : String) (ns : List String)
    → count_name m ns ≤ 1
    → count_name m (without (position m ns) ns) ≡ 0
count_name-without_once m ns once = elim (Option-cases (position m ns)) [
  | inl missing ↦ rw missing (position-none m ns missing)
  | inr (i, found) ↦
      let split : count_name m ns ≡ 1 + count_name m (remove_at i ns) =
        rw found at (count_name-without_self m ns) in
      rw found (omega arith)
]

count_name-learned :
    (m name : String) (ns : List String)
    → count_name m ns ≤ 1
    → (first (learned m ns) ≡ some m)
      × (count_name m (learned m ns) ≡ 1)
      × (name ≢ m → count_name name (learned m ns) ≡ count_name name ns)
count_name-learned m name [] once = ground (arith, eq_iff m m, eq_iff m name)
count_name-learned m name (n ∷ ns) once = elim (Bool-cases (n =ˢ m)) [
  | inl hit ↦
      let same : n ≡ m = (eq_iff n m).0 hit in rw hit (ap some same, ground arith, λ other. refl)
  | inr miss ↦
      let self : (m =ˢ m) ≡ true = eq_refl m in
      rw miss (
        refl,
        rw self (omega (arith, rw miss at (count_name-without_once m (n ∷ ns) once))),
        λ other. ground (arith, eq_iff m name, count_name-without_other m name ns other),
      )
]

is_first-learned : (m : String) (ns : List String) → is_first m (learned m ns) ≡ true
is_first-learned m [] = eq_refl m
is_first-learned m (n ∷ ns) = elim (Bool-cases (n =ˢ m)) [
  | inl hit ↦ rw hit hit
  | inr miss ↦ rw miss (eq_refl m)
]

is_first-learn_media :
    (media : ReadyMedia) (cfg : PrinterConfig)
    → is_first media.name (learn_media media cfg).media_names ≡ true
is_first-learn_media media cfg =
    rw (names-learn_media media cfg) (is_first-learned media.name cfg.media_names)

learn_media_again :
    (media : ReadyMedia) (cfg : PrinterConfig)
    → learn_media media (learn_media media cfg) ≡ learn_media media cfg
learn_media_again media cfg =
    learn_media_front media (learn_media media cfg) (is_first-learn_media media cfg)

ne_text : (a b : String) → (a =ˢ b) ≡ false → a ≢ b
ne_text a b apart e = let no : true ≡ false = sym ((eq_iff a b).1 e) ∙ apart in cc no

learned_once :
    (m name : String) (ns after : List String)
    → count_name m after ≡ 1
    → (name ≢ m → count_name name after ≡ count_name name ns)
    → count_name name after ≡ (if name =ˢ m then 1 else count_name name ns)
learned_once m name ns after one others = elim (Bool-cases (name =ˢ m)) [
  | inl same ↦ rw same (rw ((eq_iff name m).0 same) one)
  | inr apart ↦ rw apart (others (λ e. absurd (ne_text name m apart e)))
]

-- If the configuration has the name of the loaded roll at most once: after the roll is learned, its name is the
-- first of the names and occurs once, and every other name occurs as often as before.
pub count_name-learn_media :
    (media : ReadyMedia) (cfg : PrinterConfig) (name : String)
    → count_name media.name cfg.media_names ≤ 1
    → (first (learn_media media cfg).media_names ≡ some media.name)
      × (count_name name (learn_media media cfg).media_names
          ≡ (if name =ˢ media.name then 1 else count_name name cfg.media_names))
count_name-learn_media media cfg name once =
    let (front, one, others) = count_name-learned media.name name cfg.media_names once in
    rw (names-learn_media media cfg)
      (front, learned_once media.name name cfg.media_names _ one others)

same_size_self : (a : ℤ × ℤ) → same_size a a ≡ true
same_size_self a = ground arith

-- Reporting the same roll again changes nothing, and says so.
pub set_ready_media_again :
    (media : ReadyMedia) (rec : PrinterRecord)
    → set_ready_media media (set_ready_media media rec).0 ≡ ((set_ready_media media rec).0, false)
unfolding set_ready_media
set_ready_media_again media rec = rw (
  learn_media_again media rec.config,
  is_first-learn_media media rec.config,
  same_size_self media.size_hmm,
)

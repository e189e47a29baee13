-- ===== src/Texts/Chars.antt =====
-- Texts as lists of characters.
use ipp_printer_app.Base.{Char, List, String, [], ap, refl, ◌++◌, ◌∙◌, ◌∷◌, ◌≡◌}
use Prim.Native.String.{[] as nil, ◌∷◌ as ◌∷ˢ◌, ◌++◌ as ◌⧺◌}
use Prim.Native.String.append
use ipp_printer_app.Texts.{chars, from_chars, snoc}

pub chars-append : (a b : String) → chars (a ⧺ b) ≡ chars a ++ chars b
chars-append nil b = ap chars (append.nil b)
chars-append (c ∷ˢ a) b = ap chars (append.cons c a b) ∙ ap (λ cs. c ∷ cs) (chars-append a b)

pub chars-from_chars : (cs : List Char) → chars (from_chars cs) ≡ cs
chars-from_chars [] = refl
chars-from_chars (c ∷ cs) = ap (λ t. c ∷ t) (chars-from_chars cs)

pub from_chars-chars : (s : String) → from_chars (chars s) ≡ s
from_chars-chars nil = refl
from_chars-chars (c ∷ˢ s) = ap (λ t. c ∷ˢ t) (from_chars-chars s)

pub snoc-append : (cur : List Char) (c : Char) (cs : List Char) → snoc cur c ++ cs ≡ cur ++ c ∷ cs
snoc-append [] c cs = refl
snoc-append (d ∷ cur) c cs = ap (λ t. d ∷ t) (snoc-append cur c cs)

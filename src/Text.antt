-- ===== src/Text.antt =====
-- Texts split at a separator: the keys of Redis that the parts of the cluster write for each other.
use Prim.Native.Char.{Char}
use Prim.Native.String.{◌++◌}
use text.Mathlib.TextLemmas.{nil-append, cons-append}
use scrapy_cluster.Prelude.{
  String, ◌≡◌, refl, Bool, true, not, ◌&&◌, List, [], ◌∷◌, str_eq, if◌then◌else◌, Bool-cases, inl,
  inr, arith,
}

abbrev pub single : Char → String
single c = String.◌∷◌ c String.[]

abbrev pub before_first : Char → List String → List String
before_first c [] = single c ∷ []
before_first c (w ∷ ws) = String.◌∷◌ c w ∷ ws

-- text.split(":")
abbrev pub split : String → List String
split String.[] = "" ∷ []
split (String.◌∷◌ c s) =
    let ws = split s in if str_eq (single c) ":" then "" ∷ ws else before_first c ws

-- The text has no colon.
abbrev pub is_plain : String → Bool
is_plain String.[] = true
is_plain (String.◌∷◌ c s) = not (str_eq (single c) ":") && is_plain s

-- A text without colons is one part.
pub split_plain : (w : String) → is_plain w ≡ true → split w ≡ w ∷ []
split_plain String.[] h = refl
split_plain (String.◌∷◌ c s) h = ground (arith, split_plain s)

pub split-append : (w s : String) → is_plain w ≡ true → split (w ++ (":" ++ s)) ≡ w ∷ split s
split-append String.[] s h = rw (nil-append, cons-append, nil-append)
split-append (String.◌∷◌ c w) s h = elim (Bool-cases (str_eq (single c) ":")) [
  | inl separator ↦ ground (arith)
  | inr other ↦ rw (cons-append, other, split-append w s (ground arith))
]

-- The parts of a key that is written with three colons.
pub split-four :
    (a b c e : String)
    → is_plain a ≡ true
    → is_plain b ≡ true
    → is_plain c ≡ true
    → is_plain e ≡ true
    → split (a ++ (":" ++ (b ++ (":" ++ (c ++ (":" ++ e)))))) ≡ a ∷ b ∷ c ∷ e ∷ []
split-four a b c e ha hb hc he =
    rw (split-append a _ ha, split-append b _ hb, split-append c _ hc, split_plain e he)

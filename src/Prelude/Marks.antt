-- ===== src/Prelude/Marks.antt =====
-- A number as so many marks: the texts of numbers in concrete runs.
use Prim.Native.Nat.{ℕ, zero, suc}
use Prim.Native.String.{String}
use mathlib.Core.Path.{◌≡◌, refl, ap}
use mathlib.Core.Logic.{◌≢◌}

-- One mark more than the number, so that no text is empty.
abbrev pub marks : ℕ → String
marks zero = "1"
marks (suc n) = String.◌∷◌ "1" (marks n)

abbrev pub unmark : String → ℕ
unmark String.[] = 0
unmark (String.◌∷◌ c String.[]) = 0
unmark (String.◌∷◌ c (String.◌∷◌ d s)) = suc (unmark (String.◌∷◌ d s))

pub unmark-marks : (n : ℕ) → unmark (marks n) ≡ n
unmark-marks zero = refl
unmark-marks (suc zero) = refl
unmark-marks (suc (suc n)) = ap suc (unmark-marks (suc n))

pub marks-ne-nil : (n : ℕ) → marks n ≢ ""
marks-ne-nil zero = cc
marks-ne-nil (suc n) = cc

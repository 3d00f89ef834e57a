-- ===== src/Log/Callbacks.antt =====
-- For which levels a callback is called (utils/scutils/log_factory.py: parse_log_level,
-- register_callback and fire_callbacks).
use Prim.Native.String.{◌++◌ as append}
use scrapy_cluster.Prelude.{
  ℕ, ◌+◌, ◌-◌, ◌≤◌, suc, zero, String, ◌≡◌, refl, ap, ◌∙◌, Bool, ◌&&◌, some, List, [], ◌∷◌, ◌++◌,
  arith, leb, ltb, ◌==◌, if◌then◌else◌,
}
use scrapy_cluster.Statistics.Queues.{and_then}
use scrapy_cluster.Log.{
  range, up_to, below, from, above, only, parse_log_level, Callback, Callbacks, append_at,
  register_levels, register_callback,
}

-- the names of level_dict
pub data Level : Type 0 where
  debug : Level
  info : Level
  warn : Level
  warning : Level
  error : Level
  critical : Level

abbrev pub name_of : Level → String
name_of debug = "DEBUG"
name_of info = "INFO"
name_of warn = "WARN"
name_of warning = "WARNING"
name_of error = "ERROR"
name_of critical = "CRITICAL"

abbrev pub number_of : Level → ℕ
number_of debug = 0
number_of info = 1
number_of warn = 2
number_of warning = 2
number_of error = 3
number_of critical = 4

-- the comparisons that a text can start with
pub data Comparison : Type 0 where
  le : Comparison
  lt : Comparison
  ge : Comparison
  gt : Comparison
  eq : Comparison
  bare : Comparison

abbrev pub written : Comparison → String
written le = "<="
written lt = "<"
written ge = ">="
written gt = ">"
written eq = "="
written bare = ""

-- the levels that it means, on their numbers
abbrev pub holds : Comparison → ℕ → ℕ → Bool
holds le k n = leb k n
holds lt k n = ltb k n
holds ge k n = leb n k
holds gt k n = ltb n k
holds eq k n = k == n
holds bare k n = k == n

abbrev levels : Comparison → ℕ → List ℕ
levels le n = up_to n
levels lt n = below n
levels ge n = from n
levels gt n = above n
levels eq n = only n
levels bare n = only n

parse_lem :
    (c : Comparison) (l : Level)
    → parse_log_level (append (written c) (name_of l)) ≡ some (levels c (number_of l))
unfolding parse_log_level
parse_lem le debug = refl
parse_lem le info = refl
parse_lem le warn = refl
parse_lem le warning = refl
parse_lem le error = refl
parse_lem le critical = refl
parse_lem lt debug = refl
parse_lem lt info = refl
parse_lem lt warn = refl
parse_lem lt warning = refl
parse_lem lt error = refl
parse_lem lt critical = refl
parse_lem ge debug = refl
parse_lem ge info = refl
parse_lem ge warn = refl
parse_lem ge warning = refl
parse_lem ge error = refl
parse_lem ge critical = refl
parse_lem gt debug = refl
parse_lem gt info = refl
parse_lem gt warn = refl
parse_lem gt warning = refl
parse_lem gt error = refl
parse_lem gt critical = refl
parse_lem eq debug = refl
parse_lem eq info = refl
parse_lem eq warn = refl
parse_lem eq warning = refl
parse_lem eq error = refl
parse_lem eq critical = refl
parse_lem bare debug = refl
parse_lem bare info = refl
parse_lem bare warn = refl
parse_lem bare warning = refl
parse_lem bare error = refl
parse_lem bare critical = refl

number_le : (l : Level) → number_of l ≤ 4
number_le debug = omega arith
number_le info = omega arith
number_le warn = omega arith
number_le warning = omega arith
number_le error = omega arith
number_le critical = omega arith

register_range :
    (a n : ℕ) (cb : Callback) (t : Callbacks) (k : ℕ)
    → register_levels (range a n) cb t k
      ≡ (if leb a k && ltb k (a + n) then t k ++ (cb ∷ []) else t k)
unfolding register_levels
register_range a zero cb t k = ground arith
register_range a (suc n) cb t k = ground (arith, register_range (a + 1) n cb (append_at a cb t) k)

levels_lem :
    (c : Comparison) (n : ℕ) (cb : Callback) (t : Callbacks) (k : ℕ)
    → n ≤ 4
    → k ≤ 4
    → register_levels (levels c n) cb t k ≡ (if holds c k n then t k ++ (cb ∷ []) else t k)
unfolding register_levels
levels_lem le n cb t k hn hk = register_range 0 (n + 1) cb t k ∙ ground (arith, hn, hk)
levels_lem lt n cb t k hn hk = register_range 0 n cb t k ∙ ground (arith, hn, hk)
levels_lem ge n cb t k hn hk = register_range n (5 - n) cb t k ∙ ground (arith, hn, hk)
levels_lem gt n cb t k hn hk = register_range (n + 1) (4 - n) cb t k ∙ ground (arith, hn, hk)
levels_lem eq n cb t k hn hk = refl
levels_lem bare n cb t k hn hk = refl

-- Registering a callback for a comparison with a level never raises, and puts it at the end of the
-- callbacks of exactly the levels for which the comparison holds; WARN and WARNING are one level.
pub register_callback_lem :
    (c : Comparison) (l : Level) (cb : Callback) (t : Callbacks)
    → (t' : Callbacks) × (register_callback (append (written c) (name_of l)) cb t ≡ some t')
      × ((k : ℕ) → k ≤ 4 → t' k ≡ (if holds c k (number_of l) then t k ++ (cb ∷ []) else t k))
unfolding register_callback
register_callback_lem c l cb t = (
  register_levels (levels c (number_of l)) cb t,
  ap (λ o. and_then o (λ levels. some (register_levels levels cb t))) (parse_lem c l),
  λ k below. levels_lem c (number_of l) cb t k (number_le l) below,
)

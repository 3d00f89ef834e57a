-- ===== src/Throttle/Clock.antt =====
-- How a time is written into Redis and read back (`str` and `float` of Python's floats, whose
-- shortest text reads back as the same number), at the resolution of the model.
use scrapy_cluster.Prelude.{ℕ, String, ◌≡◌}
use scrapy_cluster.Prelude.Marks.{marks, unmark, unmark-marks}

pub record TimeText : Type 0 where
  pub show : ℕ → String
  pub read : String → ℕ
  pub read-show : (t : ℕ) → read (show t) ≡ t

module _ (c : TimeText) where
  pub show_inj : (s t : ℕ) → c.show s ≡ c.show t → s ≡ t
  show_inj s t h = cc (c.read-show s, c.read-show t)

abbrev pub tally_time : TimeText
tally_time = record { show = marks; read = unmark; read-show = unmark-marks }

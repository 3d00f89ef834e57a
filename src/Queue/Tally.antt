-- ===== src/Queue/Tally.antt =====
-- An encoding for concrete runs: a number as so many marks.
use scrapy_cluster.Prelude.{ℕ, String, refl, ap, Option, none, some, List, [], ◌∷◌}
use scrapy_cluster.Prelude.Marks.{marks, unmark, unmark-marks, marks-ne-nil}
use scrapy_cluster.Queue.Codec.{Encoding}

abbrev pub unbyte : List ℕ → Option ℕ
unbyte [] = none
unbyte (n ∷ _) = some n

abbrev pub write_bytes : List ℕ → String
write_bytes [] = ""
write_bytes (n ∷ _) = marks n

abbrev pub tally : Encoding ℕ
tally = record {
  name = "ujson";
  dumps = marks;
  loads = λ s. some (unmark s);
  dumps_bytes = λ n. n ∷ [];
  loads_bytes = unbyte;
  decode_latin1 = write_bytes;
  encode_latin1 = λ s. unmark s ∷ [];
  loads-dumps = λ n. ap some (unmark-marks n);
  dumps-ne-nil = marks-ne-nil;
  loads_bytes-dumps_bytes = λ n. refl;
  encode-decode_latin1 = λ n. ap (λ k. k ∷ []) (unmark-marks n);
  decode_latin1-dumps_bytes-ne-nil = marks-ne-nil;
}

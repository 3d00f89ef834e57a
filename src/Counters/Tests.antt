-- ===== src/Counters/Tests.antt =====
-- Concrete instances of the statistics (utils/scutils/stats_collector.py).
use scrapy_cluster.Prelude.{
  ℕ, ◌≡◌, refl, true, false, some, ltb, Bool-cases, inl, inr, List, if◌then◌else◌, none, false, [],
  ◌∷◌, String, length, arith,
}
use Prim.Native.String.{◌++◌, count}
use scrapy_cluster.Redis.Memory.{memory, empty}
use scrapy_cluster.Throttle.Clock.{tally_time}
use scrapy_cluster.Throttle.Hits.{recent}
use scrapy_cluster.Counters.{
  Threaded, set_key, is_expired, roll_on, do_thread_work, purge_old, delete_oldest, rolling_value,
  rolling_expire, init,
}
use scrapy_cluster.Counters.Factory.{setup, get_counter}
use scrapy_cluster.Counters.Rolled.{IsRolling, window_key, IsPresent, after, main_loop-IsPresent}
use scrapy_cluster.Counters.Kept.{do_thread_work-kept}
use scrapy_cluster.Counters.Rolling.{hit_all, rolling_value-recent}

-- Every date has the same text here, of one character.
abbrev date : ℕ → String
date t = "d"

abbrev hourly : Threaded
hourly = record {
  key = "stats";
  start_time = 100;
  window = some 60;
  roll = true;
  keep_max = some 2;
  final_key = "stats:d";
}

hourly-IsRolling : IsRolling date 60 hourly
hourly-IsRolling = record { roll = refl; window = refl; final_key = refl }

-- three rounds in the third window from its own, and two that come later
main_loop-IsPresent_example :
    IsPresent date 60
      (omega arith)
      memory
      (λ c d. d)
      (λ prefix d. [])
      hourly
      390
      (after date 60
        (omega arith)
        memory
        (λ c d. d)
        (λ prefix d. [])
        (285 ∷ 300 ∷ 330 ∷ 335 ∷ 390 ∷ [])
        hourly
        empty)
main_loop-IsPresent_example =
    main_loop-IsPresent date 60 (omega arith) memory (λ c d. d) (λ prefix d. [])
      (285 ∷ 300 ∷ 330 ∷ []) (335 ∷ 390 ∷ []) 330 hourly empty hourly-IsRolling
      ((omega arith, omega arith), ((omega arith, omega arith), ((omega arith, omega arith), tt)))
      (omega arith, omega arith) (omega arith, omega arith, (omega arith, omega arith, tt))

-- Dates before 200 and after have texts of their own, of one length.
abbrev half : ℕ → String
half t = if ltb t 200 then "a" else "b"

half-even : (u v : ℕ) → count (half u) ≡ count (half v)
half-even u v = elim (Bool-cases (ltb u 200)) [
  | inl early ↦ elim (Bool-cases (ltb v 200)) [
    | inl early' ↦ rw (early, early') refl
    | inr late' ↦ rw (early, late') refl
  ]
  | inr late ↦ elim (Bool-cases (ltb v 200)) [
    | inl early' ↦ rw (late, early') refl
    | inr late' ↦ rw (late, late') refl
  ]
]

abbrev halved : Threaded
halved = record hourly { start_time = 150; final_key = "stats:a" }

-- KEYS finds three keys below the window's own, of which one is over keep_max.
abbrev below : String → memory.Db → List String
below prefix d = (prefix ++ "x") ∷ (prefix ++ "y") ∷ (prefix ++ "z") ∷ []

abbrev windows : memory.Db
windows = memory.put "stats:b:x" "9" (memory.put "stats:a" "1" empty)

halved_run :
    (roll_on half 300 halved).final_key
    ≡ window_key half halved (roll_on half 300 halved).start_time
unfolding roll_on is_expired set_key
halved_run = refl

-- the purge has work to do
purged_run :
    memory.value (do_thread_work half memory (λ c d. d) 300 below halved windows).1 "stats:b:x"
    ≡ none
unfolding do_thread_work purge_old delete_oldest roll_on is_expired set_key
purged_run = refl

-- the window of the time 150 outlives the round that begins the one of 210
do_thread_work-kept_example :
    memory.value (do_thread_work half memory (λ c d. d) 300 below halved windows).1 "stats:a"
    ≡ memory.value windows "stats:a"
do_thread_work-kept_example =
    do_thread_work-kept half memory (λ c d. d) 300 150 below halved windows half-even
      (λ prefix e. (("x", refl), (("y", refl), (("z", refl), tt)))) halved_run

rolling_value-recent_example :
    rolling_value date memory tally_time hourly (
      rolling_expire date memory tally_time 60 300 hourly
        (hit_all tally_time date memory hourly (290 ∷ 250 ∷ 100 ∷ []) empty))
    ≡ length (recent 60 300 (290 ∷ 250 ∷ 100 ∷ []))
rolling_value-recent_example =
    rolling_value-recent tally_time date memory hourly 60 300 (290 ∷ 250 ∷ 100 ∷ []) 300 empty
      (omega arith, (omega arith, (omega arith, tt))) refl

abbrev asked : Threaded × ℕ
asked = (
  record {
    key = "stats";
    start_time = 0;
    window = none;
    roll = false;
    keep_max = none;
    final_key = "stats";
  },
  0,
)

asked_made : get_counter date true true true 100 "stats" none none false none 7 ≡ some asked
unfolding get_counter setup init set_key
asked_made = refl

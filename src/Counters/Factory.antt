-- ===== src/Counters/Factory.antt =====
-- The factory methods of StatsCollector, the set-up of a counter and its worker thread
-- (utils/scutils/stats_collector.py: StatsCollector, AbstractCounter.setup, ThreadedCounter).
use scrapy_cluster.Prelude.{
  ℕ, ◌+◌, ◌*◌, String, ◌≡◌, refl, ap, subst, Bool, true, false, Option, none, some, List, [], ◌∷◌,
  str_eq, if◌then◌else◌,
}
use scrapy_cluster.Redis.{Redis}
use scrapy_cluster.Throttle.{second}
use scrapy_cluster.Counters.{
  Threaded, init, do_thread_work, roll_on, counter_increment, counter_value,
}

abbrev pub minute : ℕ
minute = 60 * second

abbrev pub hour : ℕ
hour = 60 * minute

abbrev pub day : ℕ
day = 24 * hour

-- getattr(StatsCollector, item) for the attributes that are numbers of seconds; none is an
-- AttributeError
unfoldable pub seconds_of : String → Option ℕ
seconds_of item =
    if str_eq item "SECONDS_1_MINUTE"
    then some minute
    else if str_eq item "SECONDS_15_MINUTE"
    then some (minute * 15)
    else if str_eq item "SECONDS_30_MINUTE"
    then some (minute * 30)
    else if str_eq item "SECONDS_1_HOUR"
    then some hour
    else if str_eq item "SECONDS_2_HOUR"
    then some (hour * 2)
    else if str_eq item "SECONDS_4_HOUR"
    then some (hour * 4)
    else if str_eq item "SECONDS_6_HOUR"
    then some (hour * 6)
    else if str_eq item "SECONDS_12_HOUR"
    then some (hour * 12)
    else if str_eq item "SECONDS_24_HOUR"
    then some day
    else if str_eq item "SECONDS_48_HOUR"
    then some (hour * 48)
    else if str_eq item "SECONDS_1_DAY"
    then some day
    else if str_eq item "SECONDS_2_DAY"
    then some (day * 2)
    else if str_eq item "SECONDS_3_DAY"
    then some (day * 3)
    else if str_eq item "SECONDS_7_DAY"
    then some (day * 7)
    else if str_eq item "SECONDS_1_WEEK"
    then some (day * 7)
    else if str_eq item "SECONDS_30_DAY"
    then some (day * 30)
    else none

-- how AbstractCounter.setup ends
pub data Setup : Type 0 where
  ready : Setup
  -- no attribute REDIS_SOCKET_TIMEOUT, which only StatsCollector has
  attribute_error : Setup
  unspecified : Setup

-- AbstractCounter.setup, from whether a connection, a host and a port are given
unfoldable pub setup : Bool → Bool → Bool → Setup
setup true host port = ready
setup false true true = attribute_error
setup false true false = unspecified
setup false false port = unspecified

-- the counter, unless its set-up raises
abbrev pub when_ready {ℓ} : {A : Type ℓ} → Setup → A → Option A
when_ready ready c = some c
when_ready attribute_error c = none
when_ready unspecified c = none

when_ready_lem {ℓ} : {A : Type ℓ} (s : Setup) (x : A) {c : A} → when_ready s x ≡ some c → x ≡ c
when_ready_lem ready x h = cc
when_ready_lem attribute_error x h = cc
when_ready_lem unspecified x h = cc

module _ (date : ℕ → String) (conn : Bool) (host port : Bool) (now : ℕ) where
  unfoldable pub get_time_window : String → Option ℕ → ℕ → Bool → Option ℕ → Option Threaded
  get_time_window key start_time window roll keep_max =
      when_ready (setup conn host port) (init date key start_time (some window) roll keep_max now)

  unfoldable pub get_rolling_time_window : String → ℕ → Option Threaded
  get_rolling_time_window key window =
      when_ready (setup conn host port) (init date key none (some window) false none now)

  -- the second part is the counter's own start_at, its constructor's default
  unfoldable pub get_counter :
      String → Option ℕ → Option ℕ → Bool → Option ℕ → ℕ → Option (Threaded × ℕ)
  get_counter key start_time window roll keep_max start_at =
      when_ready (setup conn host port) (init date key start_time window roll keep_max now, 0)

  unfoldable pub get_unique_counter :
      String → Option ℕ → Option ℕ → Bool → Option ℕ → Option Threaded
  get_unique_counter key start_time window roll keep_max =
      when_ready (setup conn host port) (init date key start_time window roll keep_max now)

  unfoldable pub get_hll_counter : String → Option ℕ → Option ℕ → Bool → Option ℕ → Option Threaded
  get_hll_counter key start_time window roll keep_max =
      when_ready (setup conn host port) (init date key start_time window roll keep_max now)

  unfoldable pub get_bitmap_counter :
      String → Option ℕ → Option ℕ → Bool → Option ℕ → Option Threaded
  get_bitmap_counter key start_time window roll keep_max =
      when_ready (setup conn host port) (init date key start_time window roll keep_max now)

  -- the first increment of a counter starts where the counter starts
  first_value :
      (r : Redis) (c : Threaded) (start_at : ℕ) (d : r.Db)
      → counter_value date r c (counter_increment date r start_at c (false, d)).1
        ≡ some (start_at + 1)
  unfolding counter_value counter_increment
  first_value r c start_at d =
      let started = r.put c.final_key (r.number start_at) d in
      let counted =
        (r.incr_lem c.final_key start_at started (r.put_lem c.final_key (r.number start_at) d)).1 in
      rw (r.get_some c.final_key (r.incr c.final_key started).1 counted, counter_value)
        (ap some (r.read_number-number (start_at + 1)))

  -- Whatever start is asked for, the first increment of a counter that get_counter made gives one.
  pub get_counter-first :
      (r : Redis) (key : String) (start_time window : Option ℕ) (roll : Bool) (keep_max : Option ℕ)
      (start_at : ℕ) (d : r.Db) {c : Threaded × ℕ}
      → get_counter key start_time window roll keep_max start_at ≡ some c
      → counter_value date r c.0 (counter_increment date r c.1 c.0 (false, d)).1 ≡ some 1
  unfolding get_counter
  get_counter-first r key start_time window roll keep_max start_at d {c} made =
      let same = when_ready_lem (setup conn host port) _ made in
      subst (λ b. counter_value date r b.0 (counter_increment date r b.1 b.0 (false, d)).1 ≡ some 1)
        same (first_value r _ 0 d)

-- what one round of the worker thread meets: a RedisError in `expire` or in `purge_old`, or none
pub data Round : Type 0 where
  expire_fails : Round
  purge_fails : Round
  succeeds : Round

module _ (date : ℕ → String) (r : Redis) (expire : Threaded → r.Db → r.Db) where
  -- _do_thread_work with its `except`
  unfoldable pub guarded_work :
      Round → ℕ → (String → r.Db → List String) → Threaded → r.Db → Threaded × r.Db
  guarded_work expire_fails now keys_of c d = (c, d)
  guarded_work purge_fails now keys_of c d = (roll_on date now c, expire c d)
  guarded_work succeeds now keys_of c d = do_thread_work date r expire now keys_of c d

  -- the rounds of _main_loop until `active` is false
  unfoldable pub main_loop :
      (String → r.Db → List String) → List (Bool × Round × ℕ) → Threaded → r.Db → Threaded × r.Db
  main_loop keys_of [] c d = (c, d)
  main_loop keys_of ((false, round, now) ∷ rounds) c d = (c, d)
  main_loop keys_of ((true, round, now) ∷ rounds) c d =
      let (c', d') = guarded_work round now keys_of c d in main_loop keys_of rounds c' d'

  -- the rounds in which `expire` works
  abbrev pub working : List (Bool × Round × ℕ) → List (Bool × Round × ℕ)
  working [] = []
  working ((active, expire_fails, now) ∷ rounds) =
      if active then working rounds else (active, expire_fails, now) ∷ working rounds
  working ((active, purge_fails, now) ∷ rounds) = (active, purge_fails, now) ∷ working rounds
  working ((active, succeeds, now) ∷ rounds) = (active, succeeds, now) ∷ working rounds

  -- The thread survives a Redis that fails: its loop does what it would do without the rounds in which
  -- `expire` fails.
  pub main_loop-working :
      (keys_of : String → r.Db → List String) (rounds : List (Bool × Round × ℕ)) (c : Threaded)
      (d : r.Db)
      → main_loop keys_of rounds c d ≡ main_loop keys_of (working rounds) c d
  unfolding main_loop guarded_work
  main_loop-working keys_of [] c d = refl
  main_loop-working keys_of ((true, expire_fails, now) ∷ rounds) c d =
      main_loop-working keys_of rounds c d
  main_loop-working keys_of ((true, purge_fails, now) ∷ rounds) c d =
      main_loop-working keys_of rounds (roll_on date now c) (expire c d)
  main_loop-working keys_of ((true, succeeds, now) ∷ rounds) c d =
      main_loop-working keys_of rounds _ _
  main_loop-working keys_of ((false, expire_fails, now) ∷ rounds) c d = refl
  main_loop-working keys_of ((false, purge_fails, now) ∷ rounds) c d = refl
  main_loop-working keys_of ((false, succeeds, now) ∷ rounds) c d = refl

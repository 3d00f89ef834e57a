-- ===== src/Counters.antt =====
-- The statistics of utils/scutils/stats_collector.py: the threaded counters and the kinds of
-- counter over them. Times are whole microseconds; one round of the worker thread is one call.
pub mod Rolled
pub mod Kept
pub mod Rolling
pub mod Factory
mod Tests
use Prim.Native.Nat.{Ordering}
use Prim.Native.String.{◌++◌, compare}
use scrapy_cluster.Prelude.{
  ℕ, ◌+◌, ◌-◌, ◌*◌, ◌/◌, ◌%◌, String, Bool, true, false, not, ◌&&◌, Option, none, some, List, [],
  ◌∷◌, length, leb, ltb, is_some, if◌then◌else◌,
}
use scrapy_cluster.Prelude.Int.{ℤ, pos, sub_ℕ}
use scrapy_cluster.Redis.{Redis}
use scrapy_cluster.Throttle.{second}
use scrapy_cluster.Throttle.Clock.{TimeText}

pub record Threaded : Type 0 where
  pub key : String
  pub start_time : ℕ
  pub window : Option ℕ
  pub roll : Bool
  -- None is none
  pub keep_max : Option ℕ
  pub final_key : String

-- `keep_max is not None and keep_max > 0`
abbrev pub positive : Option ℕ → Option ℕ
positive none = none
positive (some n) = if ltb 0 n then some n else none

module _ (date : ℕ → String) where
  -- _set_key, over the text of a date
  unfoldable pub set_key : Threaded → Threaded
  set_key c = record c { final_key = if c.roll then c.key ++ (":" ++ date c.start_time) else c.key }

  -- the start of the window that `now` is in: int(now) less its remainder
  unfoldable pub window_start : ℕ → ℕ → ℕ
  window_start now window = let the_time = now / second * second in the_time - the_time % window

  -- ThreadedCounter.__init__; a start time of None without a window is never read
  unfoldable pub init : String → Option ℕ → Option ℕ → Bool → Option ℕ → ℕ → Threaded
  init key start_time none roll keep_max now = set_key (record {
    key = key;
    start_time = elim start_time [ none ↦ 0 | some t ↦ t ];
    window = none;
    roll = false;
    keep_max = none;
    final_key = "";
  })
  init key start_time (some window) roll keep_max now = set_key (record {
    key = key;
    start_time = elim start_time [ none ↦ window_start now window | some t ↦ t ];
    window = some window;
    roll = roll;
    keep_max = if roll then positive keep_max else none;
    final_key = "";
  })

  -- is_expired
  unfoldable pub is_expired : ℕ → Threaded → Bool
  is_expired now c = elim c.window [ none ↦ false | some w ↦ leb (c.start_time + w) now ]

  -- the middle of _do_thread_work: on to the next window
  unfoldable pub roll_on : ℕ → Threaded → Threaded
  roll_on now c =
      if c.roll && is_expired now c
      then set_key
          (record c { start_time = c.start_time + (elim c.window [ none ↦ 0 | some w ↦ w ]) })
      else c

  abbrev pub text_leb : String → String → Bool
  text_leb a b = elim (compare a b) [ Ordering.gt ↦ false | _ ↦ true ]

  abbrev pub insert_text : String → List String → List String
  insert_text a [] = a ∷ []
  insert_text a (b ∷ l) = if text_leb a b then a ∷ b ∷ l else b ∷ insert_text a l

  -- the keys from the smallest on: those that a pop from the descending list gives
  abbrev pub sort_texts : List String → List String
  sort_texts [] = []
  sort_texts (a ∷ l) = insert_text a (sort_texts l)

  module _ (r : Redis) where
    open r use {Db}

    -- the `while` loop of purge_old: the smallest key goes first
    unfoldable pub delete_oldest : ℕ → List String → Db → Db
    delete_oldest keep [] d = d
    delete_oldest keep (key ∷ keys) d =
        let rest = delete_oldest keep keys (r.delete key d) in
        if ltb keep (length (key ∷ keys)) then rest else d

    -- purge_old; `found` is what KEYS replies
    unfoldable pub purge_old : List String → Threaded → Db → Db
    purge_old found c d = elim c.keep_max [
      | none ↦ d
      | some keep ↦ delete_oldest keep (sort_texts found) d
    ]

    -- _do_thread_work with the `expire` of the counter's class
    unfoldable pub do_thread_work :
        (Threaded → Db → Db) → ℕ → (String → Db → List String) → Threaded → Db → Threaded × Db
    do_thread_work expire now keys_of c d =
        let d' = expire c d in
        let c' = roll_on now c in (c', purge_old (keys_of (c'.final_key ++ ":") d') c' d')

    module _ (t : TimeText) where
      -- TimeWindow, which always has a window
      unfoldable pub time_increment : ℕ → Threaded → Db → Db
      time_increment now c d = elim c.window [
        | none ↦ d
        | some w ↦
            if ltb now (c.start_time + w) then r.zadd c.final_key (pos now) (t.show now) d else d
      ]

      unfoldable pub time_value : Threaded → Db → ℕ
      time_value c d = r.zcard c.final_key d

      unfoldable pub time_expire : Threaded → Db → Db
      time_expire c d = elim c.window [
        | none ↦ d
        | some w ↦
            r.zremrangebyscore_from c.final_key (pos (c.start_time + w))
              (r.zremrangebyscore c.final_key (sub_ℕ c.start_time second) d)
      ]

      -- RollingTimeWindow, with its window
      unfoldable pub rolling_increment : ℕ → Threaded → Db → Db
      rolling_increment now c d = r.zadd c.key (pos now) (t.show now) d

      unfoldable pub rolling_value : Threaded → Db → ℕ
      rolling_value c d = r.zcard c.key d

      unfoldable pub rolling_expire : ℕ → ℕ → Threaded → Db → Db
      rolling_expire window now c d = r.zremrangebyscore c.key (sub_ℕ now window) d

    -- Counter, with its `init` flag
    unfoldable pub counter_increment : ℕ → Threaded → Bool × Db → Bool × Db
    counter_increment start_at c (init, d) =
        let d' = if init then d else r.put c.final_key (r.number start_at) d in
        (true, (r.incr c.final_key d').1)

    -- int(None) of a counter that was never incremented is an exception
    unfoldable pub counter_value : Threaded → Db → Option ℕ
    counter_value c d = elim (r.get c.final_key d) [ none ↦ none | some n ↦ some (r.read_number n) ]

    -- UniqueCounter
    unfoldable pub unique_increment : String → Threaded → Db → Db
    unique_increment item c d = (r.sadd c.final_key item d).1

    unfoldable pub unique_value : Threaded → Db → ℕ
    unique_value c d = r.scard c.final_key d

    -- HyperLogLogCounter
    unfoldable pub hll_increment : String → Threaded → Db → Db
    hll_increment item c d = r.pfadd c.final_key item d

    unfoldable pub hll_value : Threaded → Db → ℕ
    hll_value c d = r.pfcount c.final_key d

    -- BitMapCounter
    unfoldable pub bitmap_increment : ℕ → Threaded → Db → Db
    bitmap_increment index c d = r.setbit c.final_key index d

    unfoldable pub bitmap_value : Threaded → Db → ℕ
    bitmap_value c d = r.bitcount c.final_key d

    -- AbstractCounter.delete_key, at ThreadedCounter's get_key
    unfoldable pub delete_key : Threaded → Db → Db
    delete_key c d = r.delete c.final_key d

-- ===== src/Throttle.antt =====
-- `RedisThrottledQueue` of utils/scutils/redis_throttled_queue.py. Times are whole microseconds, and
-- the quotient of the moderation is kept as a fraction. WATCH is optimistic locking: a call reads,
-- and its transaction fails if another client changed the watched key since.
pub mod Clock
pub mod Calls
pub mod Moderation
pub mod Hits
pub mod Collision
mod Tests
pub mod Window
use scrapy_cluster.Prelude.{
  ℕ, zero, ◌+◌, ◌*◌, ◌/◌, String, Bool, true, false, not, ◌&&◌, ◌||◌, Option, none, some, str_eq,
  ltb, ◌==◌, if◌then◌else◌,
}
use scrapy_cluster.Prelude.Int.{ℤ, pos, sub_ℕ}
use scrapy_cluster.Redis.{Redis}
use scrapy_cluster.Queue.{Popped, nothing}
use Prim.Native.String.{◌++◌}
use Clock.{TimeText}

-- a / b
pub record Ratio : Type 0 where
  pub num : ℕ
  pub den : ℕ

pub record Throttle : Type 0 where
  pub window : ℕ
  pub limit : ℕ
  pub window_key : String
  pub moderation : Option Ratio
  pub moderate_key : String
  pub elastic : Bool
  pub elastic_buffer : ℕ
  pub elastic_kick_in : ℕ

abbrev pub second : ℕ
second = 1000000

-- a key name that is not given is the queue's own
abbrev pub or_own : Option String → String → String
or_own none key = key
or_own (some name) key = name

-- `__init__` over the queue's key: `none` is the ZeroDivisionError of a moderated limit of 0
unfoldable pub init :
    String → ℕ → ℕ → Bool → Option String → Option String → Bool → ℕ → Option Throttle
init key window limit moderate window_name mod_name elastic buffer =
    let plain : Throttle = record {
      window = window;
      limit = limit;
      window_key = or_own window_name key ++ ":throttle_window";
      moderation = none;
      moderate_key = "";
      elastic = false;
      elastic_buffer = 0;
      elastic_kick_in = 0;
    } in
    if moderate && not (limit == 1)
    then (if limit == 0
        then none
        else some (record plain {
          moderation = some (record { num = window; den = limit });
          moderate_key = or_own mod_name key ++ ":throttle_time";
          elastic = elastic;
          elastic_buffer = buffer;
        }))
    else some plain

-- What the outside gives to one call: three readings of the clock, and whether another client
-- changed the watched key of the window or of the moderation before the transaction.
pub record Moment : Type 0 where
  pub expires_at : ℕ
  pub curr_time : ℕ
  pub now : ℕ
  pub window_conflict : Bool
  pub moderate_conflict : Bool

-- `if self.moderation`: None and 0.0 are false
abbrev pub is_true : Option Ratio → Bool
is_true none = false
is_true (some m) = not (m.num == 0)

-- the seconds of `int(self.window * 2)`
abbrev pub twice_window : Throttle → ℕ
twice_window q = q.window * 2 / second

module _ (r : Redis) (c : TimeText) (q : Throttle) where
  open r use {Db}

  -- the moderate key, 0.0 where it is not set
  unfoldable pub last_time : Db → ℕ
  last_time d = elim (r.get q.moderate_key d) [ none ↦ 0 | some text ↦ c.read text ]

  -- (curr_time - value) < num / den, multiplied out
  abbrev pub too_soon : ℕ → ℕ → Option Ratio → Bool
  too_soon curr value none = false
  too_soon curr value (some m) = ltb (curr * m.den) (m.num + value * m.den)

  unfoldable pub is_moderated : ℕ → Db → Bool
  is_moderated curr d = too_soon curr (last_time d) q.moderation

  unfoldable pub check_elastic : Db → Bool
  check_elastic d =
      q.elastic
      && q.elastic_kick_in == q.limit
      && ltb (r.zcard q.window_key d + q.elastic_buffer) q.limit

  unfoldable pub test_hits : Moment → Db → Bool × Db
  test_hits m d =
      if ltb (r.zcard q.window_key d) q.limit
      then (if m.window_conflict then (false, d) else (
        true,
        r.expire q.window_key (twice_window q) (r.zadd q.window_key (pos m.now) (c.show m.now) d),
      ))
      else (false, d)

  -- the tail of `allowed` once the hit is counted, or is not
  unfoldable pub set_moderate_key : Moment → Bool × Db → Bool × Db
  set_moderate_key m (false, d) = (false, d)
  set_moderate_key m (true, d) =
      if m.moderate_conflict
      then (false, d)
      else (true, r.put_ex q.moderate_key (c.show m.curr_time) (twice_window q) d)

  unfoldable pub allowed : Moment → Db → Bool × Db
  allowed m d =
      let d' = r.zremrangebyscore q.window_key (sub_ℕ m.expires_at q.window) d in
      if is_true q.moderation
      then (if is_moderated m.curr_time d' && not (check_elastic d')
          then (false, d')
          else set_moderate_key m (test_hits m d'))
      else test_hits m d'

  -- `pop`, over the pop of the queue that is throttled
  unfoldable pub pop : {A : Type 0} → (Db → Popped A × Db) → Moment → Db → Popped A × Throttle × Db
  pop queue_pop m d =
      let (ok, d') = allowed m d in
      if ok
      then (let q' =
            if ltb q.elastic_kick_in q.limit
            then record q { elastic_kick_in = q.elastic_kick_in + 1 }
            else q in
          let (reply, d'') = queue_pop d' in (reply, q', d''))
      else (nothing, q, d')

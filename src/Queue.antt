-- ===== src/Queue.antt =====
-- The queues of utils/scutils/redis_queue.py: `Base` and the classes `RedisQueue`,
-- `RedisPriorityQueue` and `RedisStack`, over the Redis interface and an encoding of the items.
pub mod Codec
pub mod Laws
pub mod Ranks
pub mod Priority
pub mod Refinement
pub mod Tally
mod Tests
use scrapy_cluster.Prelude.{ℕ, String, Option, none, some, ltb, ◌==◌, str_eq, first?, if◌then◌else◌}
use scrapy_cluster.Prelude.Int.{ℤ, neg}
use scrapy_cluster.Redis.{Redis}
use Codec.{Encoding}

-- What a pop returns: None, an item, or the exception of `loads`.
pub data Popped (A : Type 0) : Type 0 where
  nothing : Popped A
  item : A → Popped A
  unloadable : Popped A

abbrev pub from_loads : {A : Type 0} → Option A → Popped A
from_loads none = unloadable
from_loads (some a) = item a

module _ {A : Type 0} (e : Encoding A) where
  -- Base._encode_item
  unfoldable pub encode_item : A → String
  encode_item a = if str_eq e.name "pickle" then e.decode_latin1 (e.dumps_bytes a) else e.dumps a

  -- Base._decode_item
  unfoldable pub decode_item : String → Option A
  decode_item s = if str_eq e.name "pickle" then e.loads_bytes (e.encode_latin1 s) else e.loads s

  -- `if data: return self._decode_item(data)`: an empty text is false too
  unfoldable pub decode_data : Option String → Popped A
  decode_data none = nothing
  decode_data (some s) = if str_eq s "" then nothing else from_loads (decode_item s)

  -- `if results: return self._decode_item(results[0])`
  unfoldable pub decode_first : Option (String × ℤ) → Popped A
  decode_first none = nothing
  decode_first (some (s, _)) = from_loads (decode_item s)

  module _ (r : Redis) (key : String) where
    open r use {Db}

    -- Base.clear
    unfoldable pub clear : Db → Db
    clear d = r.delete key d

    -- RedisQueue.__len__ and RedisStack.__len__
    unfoldable pub list_len : Db → ℕ
    list_len d = r.llen key d

    -- RedisQueue.push and RedisStack.push
    unfoldable pub list_push : A → Db → Db
    list_push a d = r.lpush key (encode_item a) d

    -- RedisQueue.pop; `others` is what other clients do while the call blocks
    unfoldable pub queue_pop : ℕ → (Db → Db) → Db → Popped A × Db
    queue_pop timeout others d =
        let (reply, d') = if ltb 0 timeout then r.brpop key timeout others d else r.rpop key d in
        (decode_data reply, d')

    -- RedisStack.pop
    unfoldable pub stack_pop : ℕ → (Db → Db) → Db → Popped A × Db
    stack_pop timeout others d =
        let (reply, d') = if ltb 0 timeout then r.blpop key timeout others d else r.lpop key d in
        (decode_data reply, d')

    -- RedisPriorityQueue.__len__
    unfoldable pub priority_len : Db → ℕ
    priority_len d = r.zcard key d

    -- RedisPriorityQueue.push
    unfoldable pub priority_push : A → ℤ → Db → Db
    priority_push a priority d = r.zadd key (neg priority) (encode_item a) d

    -- RedisPriorityQueue.pop: the range and the removal are one MULTI/EXEC transaction
    unfoldable pub priority_pop : Db → Popped A × Db
    priority_pop d = (decode_first (first? (r.zrange key d)), r.zremrangebyrank key d)

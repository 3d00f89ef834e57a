-- ===== src/Redis.antt =====
-- The Redis server, which the program calls and does not implement: its commands as a parameter,
-- with the documented effect of each on the key that it names and on the other keys. A law speaks
-- of a key that is absent or holds the command's own type; at a key of another type Redis replies
-- with an error, which the program never provokes. `value` is what a key holds.
-- Blocking pops, pipelines and MULTI/EXEC are written out by the callers.
pub mod Values
pub mod Memory
use scrapy_cluster.Prelude.{
  ℕ, ◌+◌, ◌<◌, zero, String, ◌≡◌, ◌≢◌, Bool, not, Option, none, some, List, [], ◌∷◌, length,
  contains, is_some, first?, rest_of,
}
use scrapy_cluster.Prelude.Int.{ℤ}
use Values.{
  Ranked, Value, text, list, set, zset, as_list, as_set, as_zset, remove, add, above, below,
  add_member, last?, all_but_last,
}

pub record Redis : Type 1 where
  pub Db : Type 0
  pub value : Db → String → Option Value
  -- the key is there
  pub exists : String → Db → Bool
  pub exists_lem : (k : String) (d : Db) → exists k d ≡ is_some (value d k)
  pub delete : String → Db → Db
  pub delete_lem : (k : String) (d : Db) → value (delete k d) k ≡ none
  pub delete_ne : (k j : String) (d : Db) → k ≢ j → value (delete k d) j ≡ value d j
  -- EXPIRE in seconds; a time to live of zero deletes the key at once
  pub expire : String → ℕ → Db → Db
  pub expire_lem : (k : String) (t : ℕ) (d : Db) → 0 < t → value (expire k t d) k ≡ value d k
  pub expire_ne : (k j : String) (t : ℕ) (d : Db) → k ≢ j → value (expire k t d) j ≡ value d j
  -- texts
  pub get : String → Db → Option String
  pub get_none : (k : String) (d : Db) → value d k ≡ none → get k d ≡ none
  pub get_some : (k : String) (d : Db) {v : String} → value d k ≡ some (text v) → get k d ≡ some v
  pub put : String → String → Db → Db
  pub put_lem : (k v : String) (d : Db) → value (put k v d) k ≡ some (text v)
  pub put_ne : (k j v : String) (d : Db) → k ≢ j → value (put k v d) j ≡ value d j
  -- SET with EX: the key's time to live in seconds, which must be positive
  pub put_ex : String → String → ℕ → Db → Db
  pub put_ex_lem :
      (k v : String) (t : ℕ) (d : Db) → 0 < t → value (put_ex k v t d) k ≡ some (text v)
  pub put_ex_ne : (k j v : String) (t : ℕ) (d : Db) → k ≢ j → value (put_ex k v t d) j ≡ value d j
  -- the decimal text of a number, and INCR, which replies the new number
  pub number : ℕ → String
  pub read_number : String → ℕ
  pub read_number-number : (n : ℕ) → read_number (number n) ≡ n
  pub incr : String → Db → ℕ × Db
  pub incr_lem :
      (k : String) (n : ℕ) (d : Db)
      → value d k ≡ some (text (number n))
      → ((incr k d).0 ≡ n + 1) × (value (incr k d).1 k ≡ some (text (number (n + 1))))
  pub incr_ne : (k j : String) (d : Db) → k ≢ j → value (incr k d).1 j ≡ value d j
  -- sets; SADD replies whether the member is new
  pub sadd : String → String → Db → Bool × Db
  pub sadd_lem :
      (k m : String) (d : Db) {l : List String}
      → as_set (value d k) ≡ some l
      → ((sadd k m d).0 ≡ not (contains m l))
        × (value (sadd k m d).1 k ≡ some (set (add_member m l)))
  pub sadd_ne : (k j m : String) (d : Db) → k ≢ j → value (sadd k m d).1 j ≡ value d j
  pub sismember : String → String → Db → Bool
  pub sismember_lem :
      (k m : String) (d : Db) {l : List String}
      → as_set (value d k) ≡ some l
      → sismember k m d ≡ contains m l
  -- lists
  pub llen : String → Db → ℕ
  pub llen_lem :
      (k : String) (d : Db) {l : List String} → as_list (value d k) ≡ some l → llen k d ≡ length l
  pub lpush : String → String → Db → Db
  pub lpush_lem :
      (k m : String) (d : Db) {l : List String}
      → as_list (value d k) ≡ some l
      → as_list (value (lpush k m d) k) ≡ some (m ∷ l)
  pub lpush_ne : (k j m : String) (d : Db) → k ≢ j → value (lpush k m d) j ≡ value d j
  pub lpop : String → Db → Option String × Db
  pub lpop_lem :
      (k : String) (d : Db) {l : List String}
      → as_list (value d k) ≡ some l
      → ((lpop k d).0 ≡ first? l) × (as_list (value (lpop k d).1 k) ≡ some (rest_of l))
  pub lpop_ne : (k j : String) (d : Db) → k ≢ j → value (lpop k d).1 j ≡ value d j
  pub rpop : String → Db → Option String × Db
  pub rpop_lem :
      (k : String) (d : Db) {l : List String}
      → as_list (value d k) ≡ some l
      → ((rpop k d).0 ≡ last? l) × (as_list (value (rpop k d).1 k) ≡ some (all_but_last l))
  pub rpop_ne : (k j : String) (d : Db) → k ≢ j → value (rpop k d).1 j ≡ value d j
  -- BLPOP and BRPOP in seconds: on an empty list they answer after what the other clients did in the
  -- meantime, if that is a push, or else after the timeout
  pub blpop : String → ℕ → (Db → Db) → Db → Option String × Db
  pub blpop_ready :
      (k : String) (t : ℕ) (others : Db → Db) (d : Db) {m : String} {l : List String}
      → as_list (value d k) ≡ some (m ∷ l)
      → blpop k t others d ≡ lpop k d
  pub blpop_waits :
      (k : String) (t : ℕ) (others : Db → Db) (d : Db)
      → as_list (value d k) ≡ some []
      → blpop k t others d ≡ lpop k (others d)
  pub brpop : String → ℕ → (Db → Db) → Db → Option String × Db
  pub brpop_ready :
      (k : String) (t : ℕ) (others : Db → Db) (d : Db) {m : String} {l : List String}
      → as_list (value d k) ≡ some (m ∷ l)
      → brpop k t others d ≡ rpop k d
  pub brpop_waits :
      (k : String) (t : ℕ) (others : Db → Db) (d : Db)
      → as_list (value d k) ≡ some []
      → brpop k t others d ≡ rpop k (others d)
  -- sorted sets
  pub zcard : String → Db → ℕ
  pub zcard_lem :
      (k : String) (d : Db) {l : Ranked} → as_zset (value d k) ≡ some l → zcard k d ≡ length l
  -- ZRANGE key 0 -1 WITHSCORES, and what an undisturbed ZSCAN iterates over
  pub zrange : String → Db → Ranked
  pub zrange_lem :
      (k : String) (d : Db) {l : Ranked} → as_zset (value d k) ≡ some l → zrange k d ≡ l
  pub zadd : String → ℤ → String → Db → Db
  pub zadd_lem :
      (k : String) (s : ℤ) (m : String) (d : Db) {l : Ranked}
      → as_zset (value d k) ≡ some l
      → value (zadd k s m d) k ≡ some (zset (add m s l))
  pub zadd_ne :
      (k j : String) (s : ℤ) (m : String) (d : Db) → k ≢ j → value (zadd k s m d) j ≡ value d j
  pub zrem : String → String → Db → Db
  pub zrem_lem :
      (k m : String) (d : Db) {l : Ranked}
      → as_zset (value d k) ≡ some l
      → as_zset (value (zrem k m d) k) ≡ some (remove m l)
  pub zrem_ne : (k j m : String) (d : Db) → k ≢ j → value (zrem k m d) j ≡ value d j
  -- ZREMRANGEBYRANK key 0 0
  pub zremrangebyrank : String → Db → Db
  pub zremrangebyrank_lem :
      (k : String) (d : Db) {l : Ranked}
      → as_zset (value d k) ≡ some l
      → as_zset (value (zremrangebyrank k d) k) ≡ some (rest_of l)
  pub zremrangebyrank_ne :
      (k j : String) (d : Db) → k ≢ j → value (zremrangebyrank k d) j ≡ value d j
  -- ZREMRANGEBYSCORE key -inf bound
  pub zremrangebyscore : String → ℤ → Db → Db
  pub zremrangebyscore_lem :
      (k : String) (bound : ℤ) (d : Db) {l : Ranked}
      → as_zset (value d k) ≡ some l
      → as_zset (value (zremrangebyscore k bound d) k) ≡ some (above bound l)
  pub zremrangebyscore_ne :
      (k j : String) (bound : ℤ) (d : Db) → k ≢ j → value (zremrangebyscore k bound d) j ≡ value d j
  -- ZREMRANGEBYSCORE key bound inf
  pub zremrangebyscore_from : String → ℤ → Db → Db
  pub zremrangebyscore_from_lem :
      (k : String) (bound : ℤ) (d : Db) {l : Ranked}
      → as_zset (value d k) ≡ some l
      → as_zset (value (zremrangebyscore_from k bound d) k) ≡ some (below bound l)
  pub zremrangebyscore_from_ne :
      (k j : String) (bound : ℤ) (d : Db)
      → k ≢ j
      → value (zremrangebyscore_from k bound d) j ≡ value d j
  -- the number of a set's members
  pub scard : String → Db → ℕ
  pub scard_lem :
      (k : String) (d : Db) {l : List String} → as_set (value d k) ≡ some l → scard k d ≡ length l
  -- HyperLogLogs: PFADD of one member, and PFCOUNT, an estimate from what the key holds
  pub pfadd : String → String → Db → Db
  pub pfadd_ne : (k j m : String) (d : Db) → k ≢ j → value (pfadd k m d) j ≡ value d j
  pub pfcount : String → Db → ℕ
  pub pfcount_same : (k : String) (d e : Db) → value d k ≡ value e k → pfcount k d ≡ pfcount k e
  pub pfcount_again :
      (k m : String) (d : Db) → pfcount k (pfadd k m (pfadd k m d)) ≡ pfcount k (pfadd k m d)
  -- bitmaps: SETBIT key index 1, and BITCOUNT
  pub setbit : String → ℕ → Db → Db
  pub setbit_ne : (k j : String) (i : ℕ) (d : Db) → k ≢ j → value (setbit k i d) j ≡ value d j
  pub bitcount : String → Db → ℕ
  pub bitcount_same : (k : String) (d e : Db) → value d k ≡ value e k → bitcount k d ≡ bitcount k e
  pub bitcount_again :
      (k : String) (i : ℕ) (d : Db)
      → bitcount k (setbit k i (setbit k i d)) ≡ bitcount k (setbit k i d)

-- ===== src/Queue/Priority.antt =====
-- `RedisPriorityQueue` of utils/scutils/redis_queue.py: the score is the negated priority, so the
-- first of the ranked set has the highest priority.
use scrapy_cluster.Prelude.{
  String, ◌≡◌, ap, ◌∙◌, true, some, [], ◌∷◌, str_eq, lookup, All, if◌then◌else◌,
}
use scrapy_cluster.Prelude.Int.{ℤ, neg, ◌≤ℤ◌, ltb_ℤ, int_laws}
use scrapy_cluster.Redis.{Redis}
use scrapy_cluster.Redis.Values.{Ranked, as_zset, remove, add}
use scrapy_cluster.Queue.Codec.{Encoding}
use scrapy_cluster.Queue.{item, encode_item, priority_push, priority_pop}
use scrapy_cluster.Queue.Laws.{decode_first-encode_item}
use scrapy_cluster.Queue.Ranks.{IsRanked, IsRanked-add, lookup-add, add_lowest}

-- The priority that a score stands for is at most `p`.
abbrev pub PriorityAtMost : ℤ → String × ℤ → Type 0
PriorityAtMost p x = neg x.1 ≤ℤ p

abbrev pub PriorityBelow : ℤ → String × ℤ → Type 0
PriorityBelow p x = ltb_ℤ (neg p) x.1 ≡ true

module _ {A : Type 0} (e : Encoding A) (r : Redis) (key : String) where
  open r use {Db}

  abbrev pub HoldsRanked : Db → Ranked → Type 0
  HoldsRanked d l = (as_zset (r.value d key) ≡ some l) × IsRanked l

  -- A push keeps the set ranked, gives the item its priority, also if it was queued with another,
  -- and leaves every other item's.
  pub priority_push_lem :
      (a : A) (p : ℤ) (d : Db) (l : Ranked)
      → HoldsRanked d l
      → (l' : Ranked) × HoldsRanked (priority_push e r key a p d) l'
        × ((m : String)
            → lookup m l' ≡ (if str_eq (encode_item e a) m then some (neg p) else lookup m l))
  unfolding priority_push
  priority_push_lem a p d l h =
      let l' = add (encode_item e a) (neg p) l in
      (
        l',
        (rw (r.zadd_lem key (neg p) (encode_item e a) d (h.0)), IsRanked-add _ _ l (h.1)),
        λ m. lookup-add _ m _ l,
      )

  at_most_first :
      (p : ℤ) (l : Ranked) → All (λ (x : String × ℤ). neg p ≤ℤ x.1) l → All (PriorityAtMost p) l
  at_most_first p [] h = tt
  at_most_first p ((m, t) ∷ l) h = (omega int_laws, at_most_first p l h.1)

  -- A pop of a queue whose first member is the item `a` returns `a`; every item that is left has a
  -- priority no higher than it had, and the set that is left is ranked.
  pub priority_pop_highest :
      (a : A) (p : ℤ) (d : Db) (l : Ranked)
      → HoldsRanked d ((encode_item e a, neg p) ∷ l)
      → ((priority_pop e r key d).0 ≡ item a)
        × HoldsRanked (priority_pop e r key d).1 l
        × All (PriorityAtMost p) l
  unfolding priority_pop
  priority_pop_highest a p d l (h, ranked) = (
    rw (r.zrange_lem key d h) (decode_first-encode_item e a (neg p)),
    (r.zremrangebyrank_lem key d h, ranked.1),
    at_most_first p l (ranked.0),
  )

  -- An item pushed with a priority above all that are queued is the next one popped, and leaves the
  -- queue as it was, but for an older entry of the same item.
  pub pop-push_highest :
      (a : A) (p : ℤ) (d : Db) (l : Ranked)
      → as_zset (r.value d key) ≡ some l
      → All (PriorityBelow p) l
      → let (reply, d') = priority_pop e r key (priority_push e r key a p d) in
        (reply ≡ item a) × (as_zset (r.value d' key) ≡ some (remove (encode_item e a) l))
  unfolding priority_pop priority_push
  pop-push_highest a p d l h above =
      let pushed = r.zadd_lem key (neg p) (encode_item e a) d h in
      let first = ap as_zset pushed ∙ ap some (add_lowest (encode_item e a) (neg p) l above) in
      (
        rw (r.zrange_lem key _ first) (decode_first-encode_item e a (neg p)),
        r.zremrangebyrank_lem key _ first,
      )

-- ===== src/Throttle/Collision.antt =====
-- What `test_hits` (utils/scutils/redis_throttled_queue.py) counts when two hits read the same time:
-- `zadd(key, {now: now})` has one member for both.
use scrapy_cluster.Prelude.{
  ℕ, zero, suc, ◌+◌, ◌≤◌, ◌<◌, ◌≡◌, refl, ap, sym, subst, ◌∙◌, true, false, some, List, [], ◌∷◌,
  arith, eq_refl, ltb, length, ◌⊎◌, inl, inr, Bool, Bool-cases,
}
use scrapy_cluster.Prelude.Int.{pos, sub_ℕ}
use scrapy_cluster.Redis.{Redis}
use scrapy_cluster.Redis.Values.{Ranked, as_zset, add, above}
use scrapy_cluster.Throttle.{Throttle, Moment, is_true, twice_window, test_hits, allowed}
use scrapy_cluster.Throttle.Clock.{TimeText}
use scrapy_cluster.Throttle.Calls.{Call, note, admit}

-- The same call, again and again.
abbrev pub replicate : ℕ → Call → List Call
replicate zero x = []
replicate (suc n) x = x ∷ replicate n x

module _ (r : Redis) (c : TimeText) (q : Throttle) (m : Moment)
    (plain : is_true q.moderation ≡ false) (two : 2 ≤ q.limit)
    (open_window : m.expires_at < m.now + q.window) (lives : 0 < twice_window q)
    (undisturbed : m.window_conflict ≡ false) where
  open r use {Db}

  -- Nothing is stored, or the one hit at this time.
  abbrev pub AtMostThisHit : Ranked → Type 0
  AtMostThisHit l = (l ≡ []) ⊎ (l ≡ (c.show m.now, pos m.now) ∷ [])

  abbrev purged : Db → Db
  purged d = r.zremrangebyscore q.window_key (sub_ℕ m.expires_at q.window) d

  above-ThisHit : (l : Ranked) → AtMostThisHit l → above (sub_ℕ m.expires_at q.window) l ≡ l
  above-ThisHit l (inl e) = rw e
  above-ThisHit l (inr e) = rw e (ground arith)

  add-ThisHit :
      (l : Ranked)
      → AtMostThisHit l
      → add (c.show m.now) (pos m.now) l ≡ (c.show m.now, pos m.now) ∷ []
  add-ThisHit l (inl e) = rw e
  add-ThisHit l (inr e) = rw e (rw eq_refl)

  room : (l : Ranked) → AtMostThisHit l → length l < q.limit
  room l (inl e) = rw e (omega arith)
  room l (inr e) = rw e (omega arith)

  test_hits_admits :
      (d : Db) (l : Ranked)
      → as_zset (r.value d q.window_key) ≡ some l
      → length l < q.limit
      → test_hits r c q m d ≡ (
        true,
        r.expire q.window_key (twice_window q) (r.zadd q.window_key (pos m.now) (c.show m.now) d),
      )
  unfolding test_hits
  test_hits_admits d l h less = elim (Bool-cases (ltb (r.zcard q.window_key d) q.limit)) [
    | inl below ↦ rw below (rw undisturbed)
    | inr full ↦ absurd (ground (arith, r.zcard_lem q.window_key d h))
  ]

  -- The call is admitted, and the set holds this one hit after it.
  allowed_again :
      (d : Db) (l : Ranked)
      → as_zset (r.value d q.window_key) ≡ some l
      → AtMostThisHit l
      → ((allowed r c q m d).0 ≡ true)
        × (as_zset (r.value (allowed r c q m d).1 q.window_key)
            ≡ some ((c.show m.now, pos m.now) ∷ []))
  unfolding allowed
  allowed_again d l h this =
      let kept =
        r.zremrangebyscore_lem q.window_key (sub_ℕ m.expires_at q.window) d h
        ∙ ap some (above-ThisHit l this) in
      rw plain (
        rw (test_hits_admits (purged d) l kept (room l this)) (
          refl,
          ap as_zset (
                r.expire_lem q.window_key (twice_window q) _ lives
                ∙ r.zadd_lem q.window_key (pos m.now) (c.show m.now) (purged d) kept)
              ∙ ap some (add-ThisHit l this),
        ))

  -- With a limit of two or more and no moderation, every one of any number of calls that read the
  -- same time and that no other client disturbs is admitted, however many more than the limit, if
  -- the set of hits is empty before or holds one of this time: they are stored as one hit.
  pub admit-replicate :
      (n : ℕ) (log : List ℕ) (d : Db) (l : Ranked)
      → as_zset (r.value d q.window_key) ≡ some l
      → AtMostThisHit l
      → length
          (admit r c (λ m. m.now) (replicate n (record { instance_of = q; moment = m })) (log, d)).0
        ≡ n + length log
  unfolding admit
  admit-replicate zero log d l h this = omega arith
  admit-replicate (suc n) log d l h this =
      let (ok, stored) = allowed_again d l h this in
      subst
        (λ (b : Bool).
          length
            (admit r c (λ m'. m'.now) (replicate n (record { instance_of = q; moment = m }))
              (note b m.now log, (allowed r c q m d).1)).0
          ≡ suc n + length log)
        (sym ok) (admit-replicate n (m.now ∷ log) _ _ stored (inr refl) ∙ omega arith)

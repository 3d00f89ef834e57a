-- ===== src/Throttle/Moderation.antt =====
-- The moderation of `RedisThrottledQueue` (utils/scutils/redis_throttled_queue.py): instances that
-- share a moderate key and the same spacing, window / limit.
use scrapy_cluster.Prelude.{
  ℕ, ◌+◌, ◌*◌, ◌≤◌, ◌<◌, String, ◌≡◌, refl, ◌≢◌, ◌⊎◌, inl, inr, Bool, true, false, some, List, [],
  ◌∷◌, arith, sym, subst, ◌∙◌, Bool-cases, not, ◌&&◌,
}
use scrapy_cluster.Prelude.Int.{pos, sub_ℕ}
use mathlib.Core.Bool.{false≢true}
use scrapy_cluster.Redis.{Redis}
use scrapy_cluster.Redis.Values.{text}
use scrapy_cluster.Throttle.{
  Throttle, Moment, Ratio, is_true, twice_window, last_time, test_hits, set_moderate_key,
  is_moderated, check_elastic, allowed,
}
use scrapy_cluster.Throttle.Clock.{TimeText}
use scrapy_cluster.Throttle.Calls.{Call, note, admit}

module _ (r : Redis) (c : TimeText) (q : Throttle) (m : Moment) (ratio : Ratio)
    (moderated : q.moderation ≡ some ratio) (positive : 0 < ratio.num)
    (key_ne : q.window_key ≢ q.moderate_key) (lives : 0 < twice_window q) where
  open r use {Db}

  -- ZREMRANGEBYSCORE leaves the moderate key.
  abbrev pub purged : Db → Db
  purged d = r.zremrangebyscore q.window_key (sub_ℕ m.expires_at q.window) d

  moderate_key-purged : (d : Db) → r.value (purged d) q.moderate_key ≡ r.value d q.moderate_key
  moderate_key-purged d = r.zremrangebyscore_ne q.window_key q.moderate_key _ d key_ne

  moderate_key-test_hits :
      (d : Db) → r.value (test_hits r c q m d).1 q.moderate_key ≡ r.value d q.moderate_key
  unfolding test_hits
  moderate_key-test_hits d = ground (
    arith,
    r.expire_ne q.window_key q.moderate_key (twice_window q)
        (r.zadd q.window_key (pos m.now) (c.show m.now) d) key_ne,
    r.zadd_ne q.window_key q.moderate_key (pos m.now) (c.show m.now) d key_ne,
  )

  -- The key holds the time of the call if that was admitted, and else what it held.
  abbrev pub Stamps : Db → Bool × Db → Type 0
  Stamps d res =
      (res.0 ≡ false) × (r.value res.1 q.moderate_key ≡ r.value d q.moderate_key)
      ⊎ (res.0 ≡ true) × (r.value res.1 q.moderate_key ≡ some (text (c.show m.curr_time)))

  set_moderate_key-Stamps :
      (d : Db) (res : Bool × Db)
      → r.value res.1 q.moderate_key ≡ r.value d q.moderate_key
      → Stamps d (set_moderate_key r c q m res)
  unfolding set_moderate_key
  set_moderate_key-Stamps d (false, d') h = inl (refl, h)
  set_moderate_key-Stamps d (true, d') h = elim (Bool-cases m.moderate_conflict) [
    | inl lost ↦ rw lost (inl (refl, h))
    | inr won ↦ rw won (inr (refl, r.put_ex_lem q.moderate_key _ _ d' lives))
  ]

  is_true-some : is_true q.moderation ≡ true
  is_true-some = rw moderated (ground arith)

  pub allowed-Stamps : (d : Db) → Stamps d (allowed r c q m d)
  unfolding allowed
  allowed-Stamps d =
      rw is_true-some
        (elim (Bool-cases
          (is_moderated r c q m.curr_time (purged d) && not (check_elastic r c q (purged d)))) [
            | inl early ↦ rw early (inl (refl, moderate_key-purged d))
            | inr due ↦ rw due (
                set_moderate_key-Stamps d _
                  (moderate_key-test_hits (purged d) ∙ moderate_key-purged d))
          ])

  last_time-stored :
      (d : Db) (last : ℕ)
      → r.value d q.moderate_key ≡ some (text (c.show last))
      → last_time r c q d ≡ last
  unfolding last_time
  last_time-stored d last h = rw (r.get_some q.moderate_key d h, last_time) (c.read-show last)

  abbrev pub Elastic : Db → Type 0
  Elastic d =
      (q.elastic ≡ true)
      × (q.elastic_kick_in ≡ q.limit)
      × (r.zcard q.window_key (purged d) + q.elastic_buffer < q.limit)

  Elastic-of_check : (d : Db) → check_elastic r c q (purged d) ≡ true → Elastic d
  unfolding check_elastic
  Elastic-of_check d h = ground arith

  due_of_moderated :
      (d : Db) (last : ℕ)
      → last_time r c q (purged d) ≡ last
      → is_moderated r c q m.curr_time (purged d) ≡ false
      → ratio.num + last * ratio.den ≤ m.curr_time * ratio.den
  unfolding is_moderated
  due_of_moderated d last e h = ground (arith, e, moderated)

  refused_of_moderated :
      (d : Db)
      → is_moderated r c q m.curr_time (purged d) ≡ true
      → check_elastic r c q (purged d) ≡ false
      → (allowed r c q m d).0 ≡ false
  unfolding allowed
  refused_of_moderated d early rigid = rw is_true-some (rw early (rw rigid))

  -- An admitted call comes at least window / limit after the last admitted one, unless the queue is
  -- elastic, has been popped `limit` times, and is more than the buffer below its limit.
  pub allowed_spaced :
      (d : Db) (last : ℕ)
      → r.value d q.moderate_key ≡ some (text (c.show last))
      → (allowed r c q m d).0 ≡ true
      → (ratio.num + last * ratio.den ≤ m.curr_time * ratio.den) ⊎ Elastic d
  allowed_spaced d last stored ok = elim (Bool-cases (is_moderated r c q m.curr_time (purged d))) [
    | inl early ↦ elim (Bool-cases (check_elastic r c q (purged d))) [
      | inl stretched ↦ inr (Elastic-of_check d stretched)
      | inr rigid ↦ cc (refused_of_moderated d early rigid)
    ]
    | inr late ↦ inl (
        due_of_moderated d last (last_time-stored (purged d) last (moderate_key-purged d ∙ stored))
          late)
  ]

-- The times of a log, newest first, lie at least num / den apart.
abbrev pub Spaced : Ratio → List ℕ → Type 0
Spaced ratio [] = Unit
Spaced ratio (t ∷ []) = Unit
Spaced ratio (t ∷ s ∷ log) = (ratio.num + s * ratio.den ≤ t * ratio.den) × Spaced ratio (s ∷ log)

pub record IsRigid (ratio : Ratio) (key : String) (q : Throttle) : Type 0 where
  pub moderation : q.moderation ≡ some ratio
  pub moderate_key : q.moderate_key ≡ key
  pub key_ne : q.window_key ≢ q.moderate_key
  pub lives : 0 < twice_window q
  pub elastic : q.elastic ≡ false

module _ (r : Redis) (c : TimeText) (ratio : Ratio) (positive : 0 < ratio.num) (key : String) where
  open r use {Db}

  abbrev pub AllRigid : List Call → Type 0
  AllRigid [] = Unit
  AllRigid (x ∷ calls) = IsRigid ratio key x.instance_of × AllRigid calls

  -- The moderate key holds the last logged time.
  abbrev pub HoldsLast : List ℕ → Db → Type 0
  HoldsLast [] d = Unit
  HoldsLast (t ∷ log) d = r.value d key ≡ some (text (c.show t))

  abbrev Gap : ℕ → List ℕ → Type 0
  Gap now [] = Unit
  Gap now (s ∷ log) = ratio.num + s * ratio.den ≤ now * ratio.den

  note-Spaced :
      (now : ℕ) (log : List ℕ) (d : Db) (res : Bool × Db)
      → (res.0 ≡ false) × (r.value res.1 key ≡ r.value d key)
        ⊎ (res.0 ≡ true) × (r.value res.1 key ≡ some (text (c.show now)))
      → (res.0 ≡ true → Gap now log)
      → Spaced ratio log
      → HoldsLast log d
      → Spaced ratio (note res.0 now log) × HoldsLast (note res.0 now log) res.1
  note-Spaced now [] d (false, d') s gap spaced last = (tt, tt)
  note-Spaced now [] d (true, d') (inl refused) gap spaced last = cc (refused.0)
  note-Spaced now [] d (true, d') (inr hit) gap spaced last = (tt, hit.1)
  note-Spaced now (t ∷ log) d (false, d') (inl refused) gap spaced last = (spaced, refused.1 ∙ last)
  note-Spaced now (t ∷ log) d (false, d') (inr hit) gap spaced last = cc (hit.0)
  note-Spaced now (t ∷ log) d (true, d') (inl refused) gap spaced last = cc (refused.0)
  note-Spaced now (t ∷ log) d (true, d') (inr hit) gap spaced last = ((gap refl, spaced), hit.1)

  module _ (q : Throttle) (m : Moment) (rigid : IsRigid ratio key q) where
    Gap-of_allowed :
        (log : List ℕ) (d : Db)
        → HoldsLast log d
        → (allowed r c q m d).0 ≡ true
        → Gap m.curr_time log
    Gap-of_allowed [] d last ok = tt
    Gap-of_allowed (t ∷ log) d last ok =
        elim (allowed_spaced r c q m ratio rigid.moderation positive rigid.key_ne rigid.lives d t
          (subst (λ k. r.value d k ≡ some (text (c.show t))) (sym rigid.moderate_key) last) ok) [
            | inl due ↦ due
            | inr stretched ↦ absurd (false≢true (sym rigid.elastic ∙ stretched.0))
          ]

    step-Spaced :
        (log : List ℕ) (d : Db)
        → Spaced ratio log
        → HoldsLast log d
        → Spaced ratio (note (allowed r c q m d).0 m.curr_time log)
          × HoldsLast (note (allowed r c q m d).0 m.curr_time log) (allowed r c q m d).1
    step-Spaced log d spaced last =
        note-Spaced m.curr_time log d (allowed r c q m d)
          (subst
            (λ k.
              ((allowed r c q m d).0 ≡ false) × (r.value (allowed r c q m d).1 k ≡ r.value d k)
              ⊎ ((allowed r c q m d).0 ≡ true)
                × (r.value (allowed r c q m d).1 k ≡ some (text (c.show m.curr_time))))
            rigid.moderate_key
            (allowed-Stamps r c q m ratio rigid.moderation positive rigid.key_ne rigid.lives d))
          (Gap-of_allowed log d last) spaced last

  -- Instances that share a moderate key and the spacing num / den, none of them elastic: whatever
  -- calls they make, in whatever order and whichever lose to a conflict, the times of two
  -- successive admitted calls are at least num / den apart.
  pub admit-Spaced :
      (calls : List Call) (log : List ℕ) (d : Db)
      → AllRigid calls
      → Spaced ratio log
      → HoldsLast log d
      → Spaced ratio (admit r c (λ m. m.curr_time) calls (log, d)).0
  unfolding admit
  admit-Spaced [] log d rigid spaced last = spaced
  admit-Spaced (x ∷ calls) log d rigid spaced last =
      let next = step-Spaced x.instance_of x.moment (rigid.0) log d spaced last in
      admit-Spaced calls _ _ (rigid.1) (next.0) (next.1)

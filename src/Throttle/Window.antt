-- ===== src/Throttle/Window.antt =====
-- The rolling window of `RedisThrottledQueue` (utils/scutils/redis_throttled_queue.py): any number
-- of queue instances that share a window key, a window and a limit.
use scrapy_cluster.Prelude.{
  ℕ, suc, ◌≤◌, ◌<◌, String, ◌≡◌, refl, ◌≢◌, ◌⊎◌, inl, inr, Bool, true, false, some, List, [], ◌∷◌,
  arith, ap, sym, subst, ◌∙◌, ltb, length, Bool-cases, not, ◌&&◌,
}
use scrapy_cluster.Prelude.Int.{pos, sub_ℕ}
use scrapy_cluster.Redis.{Redis}
use scrapy_cluster.Redis.Values.{Ranked, as_zset, add, above}
use scrapy_cluster.Throttle.{
  Throttle, Moment, is_true, twice_window, test_hits, set_moderate_key, is_moderated, check_elastic,
  allowed,
}
use scrapy_cluster.Throttle.Clock.{TimeText}
use scrapy_cluster.Throttle.Calls.{Call, note, admit}
use scrapy_cluster.Throttle.Hits.{
  recent, Falls, Falls-mono, HeldSince, HeldSince-later, HeldSince-above, HeldSince-add,
  length-recent_le,
}

-- An instance that shares the window: its window outlives the set's time to live, and its two keys
-- are different.
pub record Shares (w limit : ℕ) (key : String) (q : Throttle) : Type 0 where
  pub window : q.window ≡ w
  pub limit_eq : q.limit ≡ limit
  pub window_key : q.window_key ≡ key
  pub key_ne : q.moderate_key ≢ key
  pub lives : 0 < twice_window q

-- Every window of length `w` that ends in an admitted hit has at most `limit` admitted hits.
abbrev pub Throttled : ℕ → ℕ → List ℕ → Type 0
Throttled w limit [] = Unit
Throttled w limit (h ∷ log) = (length (recent w h (h ∷ log)) ≤ limit) × Throttled w limit log

module _ (r : Redis) (c : TimeText) where
  open r use {Db}

  module _ (w limit : ℕ) (key : String) where
    -- The clock does not run backwards, and no two hits are at the same time.
    abbrev pub InOrder : ℕ → List Call → Type 0
    InOrder t [] = Unit
    InOrder t (x ∷ calls) =
        Shares w limit key x.instance_of
        × (t ≤ x.moment.expires_at)
        × (x.moment.expires_at ≤ x.moment.now)
        × (t < x.moment.now)
        × InOrder x.moment.now calls

    -- What the set at the window's key has to do with the log, at the time `t`.
    pub record IsCounted (t : ℕ) (log : List ℕ) (d : Db) : Type 0 where
      pub members : Ranked
      pub stored : as_zset (r.value d key) ≡ some members
      pub held : HeldSince c w t members log
      pub falls : Falls (suc t) log
      pub throttled : Throttled w limit log

    -- The call admits nothing and leaves the set, or counts its hit below the limit.
    abbrev Outcome : ℕ → Ranked → Bool × Db → Type 0
    Outcome now l res =
        (res.0 ≡ false) × (as_zset (r.value res.1 key) ≡ some l)
        ⊎ (length l < limit) × (as_zset (r.value res.1 key) ≡ some (add (c.show now) (pos now) l))

    module _ (q : Throttle) (m : Moment) (shares : Shares w limit key q) where
      to_key :
          (d : Db) {l : Ranked}
          → as_zset (r.value d q.window_key) ≡ some l
          → as_zset (r.value d key) ≡ some l
      to_key d {l} h = subst (λ k. as_zset (r.value d k) ≡ some l) shares.window_key h

      from_key :
          (d : Db) {l : Ranked}
          → as_zset (r.value d key) ≡ some l
          → as_zset (r.value d q.window_key) ≡ some l
      from_key d {l} h = subst (λ k. as_zset (r.value d k) ≡ some l) (sym shares.window_key) h

      -- the hit, and the set's new time to live
      counted :
          (d : Db) (l : Ranked)
          → as_zset (r.value d key) ≡ some l
          → as_zset (
              r.value
                (r.expire q.window_key
                  (twice_window q)
                  (r.zadd q.window_key (pos m.now) (c.show m.now) d))
                key)
            ≡ some (add (c.show m.now) (pos m.now) l)
      counted d l h = to_key _ (
          ap as_zset (
            r.expire_lem q.window_key (twice_window q) _ shares.lives
            ∙ r.zadd_lem q.window_key (pos m.now) (c.show m.now) d (from_key d h)))

      below_limit :
          (d : Db) (l : Ranked)
          → as_zset (r.value d key) ≡ some l
          → ltb (r.zcard q.window_key d) q.limit ≡ true
          → length l < limit
      below_limit d l h less =
          ground (arith, r.zcard_lem q.window_key d (from_key d h), shares.limit_eq)

      test_hits-Outcome :
          (d : Db) (l : Ranked)
          → as_zset (r.value d key) ≡ some l
          → Outcome m.now l (test_hits r c q m d)
      unfolding test_hits
      test_hits-Outcome d l h = elim (Bool-cases (ltb (r.zcard q.window_key d) q.limit)) [
        | inl less ↦ rw less (elim (Bool-cases m.window_conflict) [
          | inl lost ↦ rw lost (inl (refl, h))
          | inr won ↦ rw won (inr (below_limit d l h less, counted d l h))
        ])
        | inr full ↦ rw full (inl (refl, h))
      ]

      set_moderate_key-Outcome :
          (l : Ranked) (res : Bool × Db)
          → Outcome m.now l res
          → Outcome m.now l (set_moderate_key r c q m res)
      unfolding set_moderate_key
      set_moderate_key-Outcome l (false, d) o = o
      set_moderate_key-Outcome l (true, d) o = elim (Bool-cases m.moderate_conflict) [
        | inl lost ↦ rw lost (still o)
        | inr won ↦ rw won (elim o [
          | inl refused ↦ cc (refused.0)
          | inr hit ↦
              inr (hit.0, ap as_zset (r.put_ex_ne q.moderate_key key _ _ d shares.key_ne) ∙ hit.1)
        ])
      ]
        where
          still : Outcome m.now l (true, d) → Outcome m.now l (false, d)
          still (inl refused) = inl (refl, refused.1)
          still (inr hit) = inr hit

      allowed-Outcome :
          (d : Db) (l : Ranked)
          → as_zset (r.value d key) ≡ some l
          → Outcome m.now (above (sub_ℕ m.expires_at w) l) (allowed r c q m d)
      unfolding allowed
      allowed-Outcome d l h =
          let purged =
            to_key _ (
              r.zremrangebyscore_lem q.window_key (sub_ℕ m.expires_at q.window) d (from_key d h)) in
          let bound =
            subst
              (λ (k : ℕ).
                as_zset
                  (r.value (r.zremrangebyscore q.window_key (sub_ℕ m.expires_at q.window) d) key)
                ≡ some (above (sub_ℕ m.expires_at k) l))
              shares.window purged in
          elim (Bool-cases (is_true q.moderation)) [
            | inl moderated ↦
                rw moderated
                  (elim (Bool-cases (
                    is_moderated r c q m.curr_time
                      (r.zremrangebyscore q.window_key (sub_ℕ m.expires_at q.window) d)
                    && not (
                        check_elastic r c q
                          (r.zremrangebyscore q.window_key (sub_ℕ m.expires_at q.window) d)))) [
                            | inl early ↦ rw early (inl (refl, bound))
                            | inr due ↦
                                rw due (set_moderate_key-Outcome _ _ (test_hits-Outcome _ _ bound))
                          ])
            | inr plain ↦ rw plain (test_hits-Outcome _ _ bound)
          ]

    module _ (t : ℕ) (now : ℕ) (log : List ℕ) (l : Ranked) (expires_at : ℕ)
        (held : HeldSince c w expires_at l log) (falls : Falls (suc t) log)
        (throttled : Throttled w limit log) (fresh : t < now) (behind : expires_at ≤ now) where
      one_more : length l < limit → length (recent w now (now ∷ log)) ≤ limit
      one_more room =
          ground (arith, length-recent_le c w expires_at now (suc t) l log behind falls held)

      admitted-Falls : Falls (suc now) (now ∷ log)
      admitted-Falls = (omega arith, Falls-mono (suc t) now log fresh falls)

      Outcome-IsCounted :
          (res : Bool × Db) → Outcome now l res → IsCounted now (note res.0 now log) res.1
      Outcome-IsCounted (false, d) (inl refused) = record {
        members = l;
        stored = refused.1;
        held = HeldSince-later c w expires_at now l log behind held;
        falls = Falls-mono (suc t) (suc now) log (omega arith) falls;
        throttled = throttled;
      }
      Outcome-IsCounted (true, d) (inl refused) = cc (refused.0)
      Outcome-IsCounted (false, d) (inr hit) = record {
        members = add (c.show now) (pos now) l;
        stored = hit.1;
        held =
            (HeldSince-later c w expires_at now _ (now ∷ log) behind
              (HeldSince-add c w expires_at now l log held)).1;
        falls = Falls-mono (suc t) (suc now) log (omega arith) falls;
        throttled = throttled;
      }
      Outcome-IsCounted (true, d) (inr hit) = record {
        members = add (c.show now) (pos now) l;
        stored = hit.1;
        held =
            HeldSince-later c w expires_at now _ (now ∷ log) behind
              (HeldSince-add c w expires_at now l log held);
        falls = admitted-Falls;
        throttled = (one_more (hit.0), throttled);
      }

    allowed-IsCounted :
        (x : Call) (t : ℕ) (log : List ℕ) (d : Db)
        → InOrder t (x ∷ [])
        → IsCounted t log d
        → IsCounted x.moment.now
            (note (allowed r c x.instance_of x.moment d).0 x.moment.now log)
            (allowed r c x.instance_of x.moment d).1
    allowed-IsCounted x t log d (shares, past, behind, fresh, _) counted =
        Outcome-IsCounted t x.moment.now log (above (sub_ℕ x.moment.expires_at w) counted.members)
          x.moment.expires_at
          (HeldSince-above c w x.moment.expires_at counted.members log
            (HeldSince-later c w t x.moment.expires_at counted.members log past counted.held))
          counted.falls counted.throttled fresh behind (allowed r c x.instance_of x.moment d)
          (allowed-Outcome x.instance_of x.moment shares d counted.members counted.stored)

    -- However many instances share a window, in whatever order their calls come and whichever of
    -- their transactions lose to a conflict: if the clock does not run backwards and no two calls
    -- read the same time for their hit, then every window of length `w` that ends in an admitted
    -- hit holds at most `limit` admitted hits.
    pub admit-Throttled :
        (calls : List Call) (t : ℕ) (log : List ℕ) (d : Db)
        → InOrder t calls
        → IsCounted t log d
        → Throttled w limit (admit r c (λ m. m.now) calls (log, d)).0
    unfolding admit
    admit-Throttled [] t log d order counted = counted.throttled
    admit-Throttled (x ∷ calls) t log d (shares, past, behind, fresh, order) counted =
        admit-Throttled calls x.moment.now _ _ order
          (allowed-IsCounted x t log d (shares, past, behind, fresh, tt) counted)

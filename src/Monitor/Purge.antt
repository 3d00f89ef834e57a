-- ===== src/Monitor/Purge.antt =====
-- `_mini_purge` of redis-monitor/plugins/stop_monitor.py: what is left in the queues.
use scrapy_cluster.Prelude.{
  ℕ, ◌+◌, String, ◌≡◌, refl, ap, ◌∙◌, ◌≢◌, Bool, true, false, ◌&&◌, ◌||◌, Option, none, some, [],
  ◌∷◌, str_eq, eq_iff, eq_refl, arith, All, Bool-cases, Option-cases, inl, inr, is_some,
  if◌then◌else◌,
}
use scrapy_cluster.Prelude.Int.{ℤ}
use scrapy_cluster.Redis.{Redis}
use scrapy_cluster.Redis.Values.{Ranked, as_zset, remove}
use scrapy_cluster.Monitor.Stop.{Outside, Item, is_of, purge_items}

module _ (r : Redis) (o : Outside r) (appid crawlid : String) where
  open r use {Db}

  abbrev matched : Option Item → Bool
  matched none = false
  matched (some i) = is_of r o appid crawlid i

  -- The text is an item of the crawl.
  abbrev pub is_match : String → Bool
  is_match m = matched (o.loads m)

  -- What a purge is to leave of a queue, and how many it is to remove.
  abbrev pub kept : Ranked → Ranked
  kept [] = []
  kept ((m, s) ∷ l) = if is_match m then kept l else (m, s) ∷ kept l

  abbrev pub purged : Ranked → ℕ
  purged [] = 0
  purged ((m, s) ∷ l) = (if is_match m then 1 else 0) + purged l

  -- All items of the queue can be loaded.
  abbrev pub Loadable : Ranked → Type 0
  Loadable l = All (λ x. is_some (o.loads x.0) ≡ true) l

  -- the removals, one after the other
  abbrev strip : Ranked → Ranked → Ranked
  strip [] cur = cur
  strip ((m, s) ∷ items) cur = strip items (if is_match m then remove m cur else cur)

  abbrev listed : String → Ranked → Bool
  listed m [] = false
  listed m ((n, s) ∷ l) = str_eq n m || listed m l

  strip_nil : (items : Ranked) → strip items [] ≡ []
  strip_nil [] = refl
  strip_nil ((m, s) ∷ items) = elim (Bool-cases (is_match m)) [
    | inl hit ↦ rw hit (strip_nil items)
    | inr miss ↦ rw miss (strip_nil items)
  ]

  strip_cons :
      (items : Ranked) (n : String) (t : ℤ) (cur : Ranked)
      → strip items ((n, t) ∷ cur)
        ≡ (if is_match n && listed n items then strip items cur else (n, t) ∷ strip items cur)
  strip_cons [] n t cur = ground arith
  strip_cons ((m, s) ∷ items) n t cur = elim (Bool-cases (str_eq n m)) [
    | inl same ↦ ground (
      arith,
      eq_iff n m,
      eq_iff m n,
      strip_cons items n t cur,
      strip_cons items n t (remove m cur),
      ap (λ x. is_match x) ((eq_iff n m).0 same),
    )
    | inr other ↦ ground (
      arith,
      eq_iff n m,
      eq_iff m n,
      strip_cons items n t cur,
      strip_cons items n t (remove m cur),
    )
  ]

  pub strip-kept :
      (items cur : Ranked) → All (λ x. listed x.0 items ≡ true) cur → strip items cur ≡ kept cur
  strip-kept items [] h = strip_nil items
  strip-kept items ((n, t) ∷ cur) h =
      strip_cons items n t cur ∙ ground (arith, strip-kept items cur (h.1), h.0)

  listed_more :
      (m : String) (s : ℤ) (items cur : Ranked)
      → All (λ x. listed x.0 items ≡ true) cur
      → All (λ x. listed x.0 ((m, s) ∷ items) ≡ true) cur
  listed_more m s items [] h = tt
  listed_more m s items ((n, t) ∷ cur) h = (ground (arith, h.0), listed_more m s items cur (h.1))

  pub listed-All : (l : Ranked) → All (λ x. listed x.0 l ≡ true) l
  listed-All [] = tt
  listed-All ((m, s) ∷ l) = (rw eq_refl refl, listed_more m s l l (listed-All l))

  -- One queue's loop, of any items: it ends, counts them and strips the sorted set.
  pub record Strips (key : String) (items cur : Ranked) (state : ℕ × Db) (res : Bool × (ℕ × Db))
      : Type 0 where
    pub loaded : res.0 ≡ true
    pub count : res.1.0 ≡ state.0 + purged items
    pub stored : as_zset (r.value res.1.1 key) ≡ some (strip items cur)
    pub others : (j : String) → key ≢ j → r.value res.1.1 j ≡ r.value state.1 j

  pub purge_items-Strips :
      (key : String) (items cur : Ranked) (n : ℕ) (d : Db)
      → Loadable items
      → as_zset (r.value d key) ≡ some cur
      → Strips key items cur (n, d) (purge_items r o appid crawlid key items (n, d))
  unfolding purge_items
  purge_items-Strips key [] cur n d loadable stored = record {
    loaded = refl;
    count = omega arith;
    stored = stored;
    others = λ j ne. refl;
  }
  purge_items-Strips key ((m, s) ∷ items) cur n d loadable stored =
      elim (Option-cases (o.loads m)) [
        | inl bad ↦ cc (bad, loadable.0)
        | inr (i, good) ↦ elim (Bool-cases (is_of r o appid crawlid i)) [
          | inl hit ↦
              let rest =
                purge_items-Strips key items (remove m cur) (n + 1) (r.zrem key m d) (loadable.1)
                  (r.zrem_lem key m d stored) in
              rw (purge_items, good)
                (rw hit (record {
                  loaded = rest.loaded;
                  count = rw (purged, good, hit) (omega (arith, rest.count));
                  stored = rw (good, hit) rest.stored;
                  others = λ j ne. rest.others j ne ∙ r.zrem_ne key j m d ne;
                }))
          | inr miss ↦
              let rest = purge_items-Strips key items cur n d (loadable.1) stored in
              rw (purge_items, good)
                (rw miss (record {
                  loaded = rest.loaded;
                  count = rw (purged, good, miss) (omega (arith, rest.count));
                  stored = rw (good, miss) rest.stored;
                  others = rest.others;
                }))
        ]
      ]

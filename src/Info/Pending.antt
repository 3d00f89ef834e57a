-- ===== src/Info/Pending.antt =====
-- What is pending of a crawl (redis-monitor/plugins/info_monitor.py: _get_bin, _build_crawlid_info):
-- the sorting into bins loses no item and counts none twice.
use scrapy_cluster.Prelude.{
  ℕ, ◌+◌, String, ◌≡◌, subst, ◌&&◌, inl, inr, Option, none, some, List, [], ◌∷◌, ◌++◌, arith,
  str_eq, Bool-cases, if◌then◌else◌,
}
use scrapy_cluster.Prelude.Int.{ℤ, neg}
use scrapy_cluster.Text.{split}
use scrapy_cluster.Redis.{Redis}
use scrapy_cluster.Redis.Values.{Ranked}
use scrapy_cluster.Statistics.Queues.{and_then}
use scrapy_cluster.Info.{
  Item, fields_of, Bins, same_score, add_to_bin, MasterInfo, empty_master, add_to_crawl, each_item,
  each_bin, domain_in, get_bin, each_key, build_crawlid_info, crawl_expires,
}

module _ (appid crawlid : String) where
  -- one for an item of the crawl
  abbrev pub is_of : Item → ℕ
  is_of x =
      if str_eq (fields_of x).appid appid && str_eq (fields_of x).crawlid crawlid then 1 else 0

  abbrev pub count_items : List Item → ℕ
  count_items [] = 0
  count_items (x ∷ items) = is_of x + count_items items

  abbrev pub count_bins : Bins → ℕ
  count_bins [] = 0
  count_bins ((score, items) ∷ bins) = count_items items + count_bins bins

  count_items-append :
      (xs : List Item) (x : Item) → count_items (xs ++ (x ∷ [])) ≡ count_items xs + is_of x
  count_items-append [] x = omega arith
  count_items-append (y ∷ xs) x = omega (arith, count_items-append xs x)

  count_bins-add_to_bin :
      (score : ℤ) (x : Item) (bins : Bins)
      → count_bins (add_to_bin score x bins) ≡ count_bins bins + is_of x
  unfolding add_to_bin
  count_bins-add_to_bin score x [] = omega arith
  count_bins-add_to_bin score x ((s, items) ∷ bins) = elim (Bool-cases (same_score s score)) [
    | inl same ↦ rw same (omega (arith, count_items-append items x))
    | inr other ↦ rw other (omega (arith, count_bins-add_to_bin score x bins))
  ]

  add_to_crawl-pending :
      (domain : String) (x : Item) (m : MasterInfo)
      → (add_to_crawl appid crawlid domain x m).total_pending ≡ m.total_pending + is_of x
  unfolding add_to_crawl
  add_to_crawl-pending domain x m = ground arith

  each_item-pending :
      (domain : String) (items : List Item) (m : MasterInfo)
      → (each_item (add_to_crawl appid crawlid domain) items m).total_pending
        ≡ m.total_pending + count_items items
  unfolding each_item
  each_item-pending domain [] m = omega arith
  each_item-pending domain (x ∷ items) m = omega (
    arith,
    each_item-pending domain items (add_to_crawl appid crawlid domain x m),
    add_to_crawl-pending domain x m,
  )

  each_bin-pending :
      (domain : String) (bins : Bins) (m : MasterInfo)
      → (each_bin (add_to_crawl appid crawlid domain) bins m).total_pending
        ≡ m.total_pending + count_bins bins
  unfolding each_bin
  each_bin-pending domain [] m = omega arith
  each_bin-pending domain ((score, items) ∷ bins) m = omega (
    arith,
    each_bin-pending domain bins (each_item (add_to_crawl appid crawlid domain) items m),
    each_item-pending domain items m,
  )

  module _ (r : Redis) (loads : String → Option Item) (d : r.Db) where
    -- the number of the crawl's items among the members of a queue
    abbrev pub queued : Ranked → ℕ
    queued [] = 0
    queued ((member, score) ∷ l) = (elim (loads member) [ none ↦ 0 | some x ↦ is_of x ]) + queued l

    -- the same over all queues
    abbrev pub queued_in : List String → ℕ
    queued_in [] = 0
    queued_in (key ∷ keys) = queued (r.zrange key d) + queued_in keys

    abbrev pub Counts : ℕ → Option Bins → Type 0
    Counts n none = Unit
    Counts n (some bins) = count_bins bins ≡ n

    abbrev pub IsPending : ℕ → Option MasterInfo → Type 0
    IsPending n none = Unit
    IsPending n (some m) = m.total_pending ≡ n

    loaded-Counts :
        (o : Option Item) (f : Item → Option Bins) (n : Option Item → ℕ)
        → ((x : Item) → Counts (n (some x)) (f x))
        → Counts (n o) (and_then o f)
    loaded-Counts none f n h = tt
    loaded-Counts (some x) f n h = h x

    get_bin-Counts :
        (l : Ranked) (bins : Bins) → Counts (count_bins bins + queued l) (get_bin r loads d l bins)
    unfolding get_bin
    get_bin-Counts [] bins = omega arith
    get_bin-Counts ((member, score) ∷ l) bins =
        loaded-Counts (loads member) (λ x. get_bin r loads d l (add_to_bin (neg score) x bins))
          (λ o. count_bins bins + ((elim o [ none ↦ 0 | some x ↦ is_of x ]) + queued l))
          (λ x.
            subst (λ n. Counts n (get_bin r loads d l (add_to_bin (neg score) x bins)))
              (omega (arith, count_bins-add_to_bin (neg score) x bins))
              (get_bin-Counts l (add_to_bin (neg score) x bins)))

    binned-IsPending :
        (o : Option Bins) (f : Bins → Option MasterInfo) (n m : ℕ)
        → Counts n o
        → ((bins : Bins) → count_bins bins ≡ n → IsPending m (f bins))
        → IsPending m (and_then o f)
    binned-IsPending none f n m h g = tt
    binned-IsPending (some bins) f n m h g = g bins h

    domain-IsPending :
        (o : Option String) (f : String → Option MasterInfo) (m : ℕ)
        → ((domain : String) → IsPending m (f domain))
        → IsPending m (and_then o f)
    domain-IsPending none f m h = tt
    domain-IsPending (some domain) f m h = h domain

    each_key-IsPending :
        (keys : List String) (m : MasterInfo)
        → IsPending
            (m.total_pending + queued_in keys)
            (each_key r loads d (add_to_crawl appid crawlid) keys m)
    unfolding each_key
    each_key-IsPending [] m = omega arith
    each_key-IsPending (key ∷ keys) m = domain-IsPending (domain_in (split key)) _ _ (λ domain.
        binned-IsPending (get_bin r loads d (r.zrange key d) []) _ _ _
          (get_bin-Counts (r.zrange key d) [])
          (λ bins all.
            let m' = each_bin (add_to_crawl appid crawlid domain) bins m in
            subst (λ n. IsPending n (each_key r loads d (add_to_crawl appid crawlid) keys m'))
              (omega (arith, each_bin-pending domain bins m, all)) (each_key-IsPending keys m')))

    -- The report of a crawl: the number of pending items is the number of members of the queues that
    -- are items of this crawl, whatever their scores.
    pub build_crawlid_info-IsPending :
        (spiderid : String) (keys : List String)
        → IsPending (queued_in keys) (build_crawlid_info r loads d spiderid appid crawlid keys)
    unfolding build_crawlid_info
    build_crawlid_info-IsPending spiderid keys =
        let empty = empty_master (crawl_expires r loads d spiderid appid crawlid) in
        subst (λ n. IsPending n (each_key r loads d (add_to_crawl appid crawlid) keys empty))
          (omega arith) (each_key-IsPending keys empty)

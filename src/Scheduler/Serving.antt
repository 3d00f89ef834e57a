-- ===== src/Scheduler/Serving.antt =====
-- The invariant of the scheduler's table (crawler/crawling/distributed_scheduler.py): every known
-- key has a queue, so that no lookup of find_item and enqueue_request fails.
use scrapy_cluster.Prelude.{
  All-map, ℕ, ◌+◌, String, ◌≡◌, refl, ap, sym, subst, ◌∙◌, ◌≢◌, Bool, true, false, some, List, [],
  ◌∷◌, Dict, lookup, insert, erase, ltb, arith, str_eq, eq_iff, eq_refl, lookup-insert,
  lookup-erase_ne, is_some, Bool-cases, inl, inr, All, if◌then◌else◌, Option-cases,
}
use scrapy_cluster.Scheduler.{Settings, Limits, Slot, Scheduler}
use scrapy_cluster.Scheduler.Queues.{
  domain_of_key, create_queue, create_all, create_queues, without, expire_slot, expire_all,
  expire_queues, Outside, refresh_queues,
}

-- The key has a queue and a domain.
abbrev pub Has : Dict Slot → String → Type 0
Has queues key = (is_some (lookup key queues) ≡ true) × (is_some (domain_of_key key) ≡ true)

abbrev pub IsServed : Scheduler → Type 0
IsServed s = All (Has s.queue_dict) s.queue_keys

-- What was there is there after an insertion.
pub insert-is_some :
    (k j : String) (slot : Slot) (queues : Dict Slot)
    → is_some (lookup j queues) ≡ true
    → is_some (lookup j (insert k slot queues)) ≡ true
insert-is_some k j slot queues h = ground (arith, lookup-insert k j slot queues)

pub inserted-is_some :
    (k : String) (slot : Slot) (queues : Dict Slot)
    → is_some (lookup k (insert k slot queues)) ≡ true
inserted-is_some k slot queues = rw (lookup-insert k k slot queues, eq_refl)

module _ (cfg : Settings) (my_ip : String) (config : Dict Limits) (new_conf : Bool) (now : ℕ) where
  create_queue-is_some :
      (key : String) (queues after : Dict Slot)
      → create_queue cfg my_ip config new_conf now key queues ≡ some after
      → is_some (lookup key after) ≡ true
  unfolding create_queue
  create_queue-is_some key queues after h = grind (arith, inserted-is_some key)

  create_queue-domain :
      (key : String) (queues after : Dict Slot)
      → create_queue cfg my_ip config new_conf now key queues ≡ some after
      → is_some (domain_of_key key) ≡ true
  unfolding create_queue
  create_queue-domain key queues after h = ground arith

  create_queue-grows :
      (key j : String) (queues after : Dict Slot)
      → create_queue cfg my_ip config new_conf now key queues ≡ some after
      → is_some (lookup j queues) ≡ true
      → is_some (lookup j after) ≡ true
  unfolding create_queue
  create_queue-grows key j queues after h there = grind (arith, insert-is_some key j)

  create_all-grows :
      (keys : List String) (j : String) (queues after : Dict Slot)
      → create_all cfg my_ip config new_conf now keys queues ≡ some after
      → is_some (lookup j queues) ≡ true
      → is_some (lookup j after) ≡ true
  unfolding create_all
  create_all-grows [] j queues after h there = ground arith
  create_all-grows (key ∷ keys) j queues after h there =
      grind (arith, create_queue-grows key j queues, create_all-grows keys j)

  create_all-Has :
      (keys : List String) (queues after : Dict Slot)
      → create_all cfg my_ip config new_conf now keys queues ≡ some after
      → All (Has after) keys
  unfolding create_all
  create_all-Has [] queues after h = tt
  create_all-Has (key ∷ keys) queues after h = (
    (
      grind (arith, create_queue-is_some key queues, create_all-grows keys key),
      grind (arith, create_queue-domain key queues),
    ),
    elim (Option-cases (create_queue cfg my_ip config new_conf now key queues)) [
      | inl failed ↦ cc (failed, h)
      | inr (queues', made) ↦
          create_all-Has keys queues' after (sym (rw (create_all, made) refl) ∙ h)
    ],
  )

-- The keys are different from each other.
abbrev pub Distinct : List String → Type 0
Distinct [] = Unit
Distinct (key ∷ keys) = All (λ j. key ≢ j) keys × Distinct keys

All-without :
    (P : String → Type 0) (k : String) (keys : List String) → All P keys → All P (without k keys)
All-without P k [] h = tt
All-without P k (key ∷ keys) h = elim (Bool-cases (str_eq key k)) [
  | inl same ↦ rw same h.1
  | inr other ↦ rw other (h.0, All-without P k keys h.1)
]

Distinct-without : (k : String) (keys : List String) → Distinct keys → Distinct (without k keys)
Distinct-without k [] h = tt
Distinct-without k (key ∷ keys) h = elim (Bool-cases (str_eq key k)) [
  | inl same ↦ rw same h.1
  | inr other ↦ rw other (All-without (λ j. key ≢ j) k keys h.0, Distinct-without k keys h.1)
]

ne-without : (k : String) (keys : List String) → Distinct keys → All (λ j. k ≢ j) (without k keys)
ne-without k [] h = tt
ne-without k (key ∷ keys) h = elim (Bool-cases (str_eq key k)) [
  | inl same ↦ rw same (subst (λ x. All (λ j. x ≢ j) keys) ((eq_iff key k).0 same) h.0)
  | inr other ↦ rw other (ground (arith, eq_iff key k), ne-without k keys h.1)
]

pub All-both :
    (P Q : String → Type 0) (keys : List String)
    → All P keys
    → All Q keys
    → All (λ j. P j × Q j) keys
All-both P Q [] hp hq = tt
All-both P Q (key ∷ keys) hp hq = ((hp.0, hq.0), All-both P Q keys hp.1 hq.1)

-- What the table and the keys are to each other, with no key twice.
abbrev pub Kept : Dict Slot × List String → Type 0
Kept state = Distinct state.1 × All (Has state.0) state.1

module _ (cfg : Settings) (now : ℕ) where
  expire_slot-Kept :
      (key : String) (slot : Slot) (queues : Dict Slot) (keys : List String)
      → Kept (queues, keys)
      → Kept (expire_slot cfg now key slot (queues, keys))
  unfolding expire_slot
  expire_slot-Kept key slot queues keys (distinct, has) =
      elim (Bool-cases (ltb (slot.used + cfg.queue_timeout) now))
        as (λ _. Kept (expire_slot cfg now key slot (queues, keys))) [
          | inl old ↦
              subst (λ b. Kept (if b then (erase key queues, without key keys) else (queues, keys)))
                (sym old)
                (
                  Distinct-without key keys distinct,
                  All-map (without key keys)
                      (λ j both.
                        (ap is_some (lookup-erase_ne key j queues (both.1)) ∙ both.0.0, both.0.1))
                      (All-both (Has queues) (λ j. key ≢ j) (without key keys)
                        (All-without (Has queues) key keys has) (ne-without key keys distinct)),
                )
          | inr recent ↦
              subst (λ b. Kept (if b then (erase key queues, without key keys) else (queues, keys)))
                (sym recent) (distinct, has)
        ]

  expire_all-Kept :
      (copy : Dict Slot) (state : Dict Slot × List String)
      → Kept state
      → Kept (expire_all cfg now copy state)
  unfolding expire_all
  expire_all-Kept [] state kept = kept
  expire_all-Kept ((key, slot) ∷ copy) state kept =
      expire_all-Kept copy (expire_slot cfg now key slot state)
        (expire_slot-Kept key slot (state.0) (state.1) kept)

  create_queues-IsServed :
      (found : List String) (s s' : Scheduler)
      → create_queues cfg found now s ≡ some s'
      → IsServed s' × (s'.queue_keys ≡ found)
  unfolding create_queues
  create_queues-IsServed found s s' h =
      elim (Option-cases
        (create_all cfg s.my_ip s.domain_config s.config_flag now found s.queue_dict)) [
          | inl failed ↦ cc (failed, h)
          | inr (queues, made) ↦
              let same : record s { queue_dict = queues; queue_keys = found; config_flag = false }
                  ≡ s' =
                cc (made, h) in
              subst (λ s. IsServed s × (s.queue_keys ≡ found)) same
                (
                  create_all-Has cfg s.my_ip s.domain_config s.config_flag now found s.queue_dict
                      queues made,
                  refl,
                )
        ]

-- Whatever the clock and the configuration, and whichever keys KEYS replies (each once): if every
-- key that the scheduler knows has a queue, this is so after the refresh of the queues, which
-- creates those of the new keys and expires the old ones.
pub refresh_queues-IsServed :
    (cfg : Settings) (o : Outside) (s s' : Scheduler)
    → Distinct o.found
    → IsServed s
    → refresh_queues cfg o s ≡ some s'
    → IsServed s'
unfolding refresh_queues expire_queues
refresh_queues-IsServed cfg o s s' distinct served h =
    elim (Bool-cases (ltb (s.update_time + cfg.update_interval) o.time)) [
      | inl due ↦
          elim (Option-cases
            (create_queues cfg o.found o.time (record s { update_time = o.time }))) [
              | inl failed ↦ cc (failed, due, h)
              | inr (made, created) ↦
                  let served' =
                    create_queues-IsServed cfg o.time o.found (record s { update_time = o.time })
                      made created in
                  let kept =
                    expire_all-Kept cfg o.time made.queue_dict (made.queue_dict, made.queue_keys)
                      (subst Distinct (sym (served'.1)) distinct, served'.0) in
                  let same : expire_queues cfg o.time made ≡ s' = cc (due, created, h) in
                  subst IsServed same (kept.1)
            ]
      | inr early ↦ let same : s ≡ s' = cc (early, h) in subst IsServed same served
    ]

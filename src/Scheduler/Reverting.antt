-- ===== src/Scheduler/Reverting.antt =====
-- The limits of the queues in memory when a configuration comes or is lost
-- (crawler/crawling/distributed_scheduler.py: update_domain_queues and error_config).
use text.Mathlib.TextLemmas.{append_cancel_left, append_cancel_right}
use scrapy_cluster.Prelude.{
  String, ◌≡◌, refl, ap, subst, ◌∙◌, ◌≢◌, true, false, Option, none, some, [], ◌∷◌, Dict, lookup,
  keys, contains, arith, eq_iff, eq_refl, str_eq, lookup-insert, Bool-cases, Option-cases, inl, inr,
  if◌then◌else◌,
}
use scrapy_cluster.Scheduler.{Settings, Limits, Slot, Scheduler, queue_key, scaled_hits}
use scrapy_cluster.Scheduler.Config.{
  with_limits, update_queue, update_queues, revert_queues, error_config,
}

-- Different domains have different keys.
queue_key-ne : (spider a b : String) → a ≢ b → queue_key spider a ≢ queue_key spider b
queue_key-ne spider a b ne h = ne (
    append_cancel_right a b ":queue" (append_cancel_left ":" _ _ (append_cancel_left spider _ _ h)))

-- The limits that a configuration gives to a slot, if it names the slot's domain.
unfoldable pub configured : Option Limits → Slot → Slot
configured none slot = slot
configured (some l) slot = with_limits l.window (scaled_hits l.hits l.scale) slot

abbrev pub map_slot : (Slot → Slot) → Option Slot → Option Slot
map_slot f none = none
map_slot f (some slot) = some (f slot)

map_slot_same : (o : Option Slot) → o ≡ map_slot (configured none) o
unfolding configured
map_slot_same none = refl
map_slot_same (some slot) = refl

key_other :
    (spider a b : String)
    → str_eq a b ≡ false
    → str_eq (queue_key spider a) (queue_key spider b) ≡ false
key_other spider a b h =
    grind
      (arith, eq_iff a b, eq_iff (queue_key spider a) (queue_key spider b), queue_key-ne spider a b)

-- No domain is named twice, as in any dict.
abbrev pub IsUnique : Dict Limits → Type 0
IsUnique [] = Unit
IsUnique ((d, l) ∷ config) = (contains d (keys config) ≡ false) × IsUnique config

update_queue_ne :
    (spider d : String) (l : Limits) (j : String) (queues : Dict Slot)
    → str_eq (queue_key spider d) j ≡ false
    → lookup j (update_queue spider d l queues) ≡ lookup j queues
unfolding update_queue
update_queue_ne spider d l j queues other =
    elim (Option-cases (lookup (queue_key spider d) queues)) [
      | inl absent ↦ rw (update_queue, absent) refl
      | inr (slot, there) ↦
          rw (update_queue, there) (lookup-insert (queue_key spider d) j _ queues ∙ rw other refl)
    ]

update_queue_own :
    (spider d : String) (l : Limits) (queues : Dict Slot)
    → lookup (queue_key spider d) (update_queue spider d l queues)
      ≡ map_slot (configured (some l)) (lookup (queue_key spider d) queues)
unfolding update_queue configured
update_queue_own spider d l queues = elim (Option-cases (lookup (queue_key spider d) queues)) [
  | inl absent ↦ rw (update_queue, absent) absent
  | inr (slot, there) ↦
      rw (update_queue, there)
        (lookup-insert (queue_key spider d) (queue_key spider d) _ queues ∙ rw eq_refl refl)
]

update_queues_ne :
    (spider domain : String) (config : Dict Limits) (queues : Dict Slot)
    → contains domain (keys config) ≡ false
    → lookup (queue_key spider domain) (update_queues spider config queues)
      ≡ lookup (queue_key spider domain) queues
unfolding update_queues
update_queues_ne spider domain [] queues h = refl
update_queues_ne spider domain ((d, l) ∷ config) queues h =
    update_queues_ne spider domain config _ (ground arith)
    ∙ update_queue_ne spider d l (queue_key spider domain) queues
        (key_other spider d domain (ground arith))

revert_queues-none :
    (cfg : Settings) (domain : String) (config : Dict Limits) (queues : Dict Slot)
    → contains domain (keys config) ≡ true
    → lookup (queue_key cfg.spider domain) queues ≡ none
    → revert_queues cfg config queues ≡ none
unfolding revert_queues
revert_queues-none cfg domain [] queues h absent = cc h
revert_queues-none cfg domain ((d, l) ∷ config) queues h absent =
    elim (Option-cases (lookup (queue_key cfg.spider d) queues)) [
      | inl failed ↦ rw (revert_queues, failed) refl
      | inr (slot, there) ↦
          rw (revert_queues, there)
            (elim (Bool-cases (str_eq d domain)) [
              | inl same ↦
                  let both =
                    ap (λ x. lookup (queue_key cfg.spider x) queues) ((eq_iff d domain).0 same) in
                  cc (there, absent, both)
              | inr other ↦ revert_queues-none cfg domain config _ (ground arith) (
                  lookup-insert (queue_key cfg.spider d) (queue_key cfg.spider domain) _ queues
                  ∙ rw (key_other cfg.spider d domain other) absent)
            ])
    ]

-- A configured domain without a queue in memory makes `error_config` fail with its KeyError.
pub error_config-none :
    (cfg : Settings) (s : Scheduler) (domain : String)
    → contains domain (keys s.domain_config) ≡ true
    → lookup (queue_key cfg.spider domain) s.queue_dict ≡ none
    → error_config cfg s ≡ none
unfolding error_config
error_config-none cfg s domain listed absent =
    rw (error_config, revert_queues-none cfg domain s.domain_config s.queue_dict listed absent) refl

-- After `update_domain_queues`, the queue of each domain that the configuration names once has its
-- window, and its hits times the scale as the limit, and a queue of another domain is as it was.
pub update_queues_lem :
    (spider domain : String) (config : Dict Limits) (queues : Dict Slot)
    → IsUnique config
    → lookup (queue_key spider domain) (update_queues spider config queues)
      ≡ map_slot (configured (lookup domain config)) (lookup (queue_key spider domain) queues)
unfolding update_queues configured
update_queues_lem spider domain [] queues unique =
    map_slot_same (lookup (queue_key spider domain) queues)
update_queues_lem spider domain ((d, l) ∷ config) queues (fresh, unique) =
    elim (Bool-cases (str_eq d domain)) [
      | inl same ↦
          subst
            (λ x.
              lookup (queue_key spider x)
                (update_queues spider config (update_queue spider d l queues))
              ≡ map_slot (configured (if str_eq d x then some l else lookup x config))
                  (lookup (queue_key spider x) queues))
            ((eq_iff d domain).0 same)
            (update_queues_ne spider d config _ fresh
              ∙ rw eq_refl (update_queue_own spider d l queues))
      | inr other ↦ rw other (
          update_queues_lem spider domain config _ unique
          ∙ ap (map_slot (configured (lookup domain config)))
              (update_queue_ne spider d l _ queues (key_other spider d domain other)))
    ]

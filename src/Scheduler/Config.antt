-- ===== src/Scheduler/Config.antt =====
-- How the scheduler takes up a configuration (crawler/crawling/distributed_scheduler.py):
-- change_config, load_domain_config, update_domain_queues and error_config.
use scrapy_cluster.Prelude.{
  ℕ, String, true, Option, none, some, List, [], ◌∷◌, Dict, lookup, insert,
}
use scrapy_cluster.Scheduler.{
  Settings, Entry, Limits, Loaded, Slot, Scheduler, scaled_hits, queue_key,
}

-- `'window' in item and 'hits' in item`
unfoldable pub complete : Entry → Option Limits
complete entry = elim entry.window [
  | none ↦ none
  | some w ↦ elim entry.hits [
    | none ↦ none
    | some h ↦ some (record { window = w; hits = h; scale = entry.scale })
  ]
]

unfoldable pub vetted : Dict Entry → Dict Limits
vetted [] = []
vetted ((domain, entry) ∷ loaded) = elim (complete entry) [
  | none ↦ vetted loaded
  | some limits ↦ (domain, limits) ∷ vetted loaded
]

abbrev domains_of : Option (Dict Entry) → Dict Limits
domains_of none = []
domains_of (some domains) = vetted domains

abbrev or_kept : Option (List String) → List String → List String
or_kept none kept = kept
or_kept (some l) kept = l

-- load_domain_config
unfoldable pub load_domain_config : Loaded → Scheduler → Scheduler
load_domain_config loaded s = record s {
  domain_config = domains_of loaded.domains;
  black_domains = or_kept loaded.blacklist s.black_domains;
  config_flag = true;
}

abbrev pub with_limits : ℕ → ℕ → Slot → Slot
with_limits window limit slot = record slot {
  throttle = record slot.throttle { window = window; limit = limit };
}

-- one domain of update_domain_queues
unfoldable pub update_queue : String → String → Limits → Dict Slot → Dict Slot
update_queue spider domain limits queues = elim (lookup (queue_key spider domain) queues) [
  | none ↦ queues
  | some slot ↦
      insert (queue_key spider domain)
        (with_limits limits.window (scaled_hits limits.hits limits.scale) slot) queues
]

-- the loop of update_domain_queues
unfoldable pub update_queues : String → Dict Limits → Dict Slot → Dict Slot
update_queues spider [] queues = queues
update_queues spider ((domain, limits) ∷ config) queues =
    update_queues spider config (update_queue spider domain limits queues)

unfoldable pub update_domain_queues : Settings → Scheduler → Scheduler
update_domain_queues cfg s = record s {
  queue_dict = update_queues cfg.spider s.domain_config s.queue_dict;
}

-- the loop of error_config: `none` is the KeyError of a domain without a queue
unfoldable pub revert_queues : Settings → Dict Limits → Dict Slot → Option (Dict Slot)
revert_queues cfg [] queues = some queues
revert_queues cfg ((domain, limits) ∷ config) queues =
    elim (lookup (queue_key cfg.spider domain) queues) [
      | none ↦ none
      | some slot ↦
          revert_queues cfg config
            (insert (queue_key cfg.spider domain) (with_limits cfg.window cfg.hits slot) queues)
    ]

unfoldable pub error_config : Settings → Scheduler → Option Scheduler
error_config cfg s = elim (revert_queues cfg s.domain_config s.queue_dict) [
  | none ↦ none
  | some queues ↦ some (record s { queue_dict = queues; domain_config = [] })
]

-- change_config up to its call of create_queues; `none` is an empty or missing configuration
unfoldable pub take_config : Settings → Option Loaded → Scheduler → Option Scheduler
take_config cfg (some loaded) s = some (update_domain_queues cfg (load_domain_config loaded s))
take_config cfg none s = error_config cfg s

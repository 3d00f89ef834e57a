-- ===== src/Scheduler/Queues.antt =====
-- The scheduler's table of throttled queues (crawler/crawling/distributed_scheduler.py):
-- create_queues, expire_queues, update_ipaddress, report_self and close.
use Prim.Native.String.{◌++◌}
use scrapy_cluster.Prelude.{
  ℕ, ◌+◌, ◌*◌, ◌/◌, String, Bool, true, false, not, ◌||◌, Option, none, some, List, [], ◌∷◌, Dict,
  lookup, insert, erase, ltb, str_eq, is_some, first?, rest_of, if◌then◌else◌,
}
use scrapy_cluster.Redis.{Redis}
use scrapy_cluster.Text.{split}
use scrapy_cluster.Throttle.{init, second}
use scrapy_cluster.Throttle.Clock.{TimeText}
use scrapy_cluster.Scheduler.{Settings, Limits, Slot, Scheduler, scaled_hits}
use scrapy_cluster.Scheduler.Config.{take_config}
use scrapy_cluster.Scheduler.{Loaded}

-- key.split(':')[1]
unfoldable pub domain_of_key : String → Option String
domain_of_key key = first? (rest_of (split key))

-- What the outside gives to one call: the clock, the keys of the queues and the address.
pub record Outside : Type 0 where
  pub time : ℕ
  pub found : List String
  pub address : Option String
  pub host : String
  pub uuid : String

-- list.remove, of the first one
abbrev pub without : String → List String → List String
without key [] = []
without key (k ∷ keys) = if str_eq k key then keys else k ∷ without key keys

module _ (cfg : Settings) where
  unfoldable pub throttle_key : String → String → String
  throttle_key my_ip domain =
      (if cfg.add_type then cfg.spider ++ ":" else "")
      ++ ((if cfg.add_ip then my_ip ++ ":" else "") ++ domain)

  -- the window and hits of a new queue
  unfoldable pub limits_for : Option Limits → ℕ × ℕ
  limits_for none = (cfg.window, cfg.hits)
  limits_for (some l) = (l.window, scaled_hits l.hits l.scale)

  -- a new slot; `none` is the ZeroDivisionError of its throttle
  unfoldable pub new_slot : String → Dict Limits → String → String → ℕ → Option Slot
  new_slot my_ip config key domain now =
      let (window, hits) = limits_for (lookup domain config) in
      let name = throttle_key my_ip domain in
      elim (init key window hits cfg.moderated (some name) (some name) true 0) [
        | none ↦ none
        | some q ↦ some (record { throttle = q; used = now })
      ]

  -- one key of create_queues
  unfoldable pub create_queue :
      String → Dict Limits → Bool → ℕ → String → Dict Slot → Option (Dict Slot)
  create_queue my_ip config new_conf now key queues = elim (domain_of_key key) [
    | none ↦ none
    | some domain ↦
        if not (is_some (lookup key queues)) || new_conf
        then (elim (new_slot my_ip config key domain now) [
          | none ↦ none
          | some slot ↦ some (insert key slot queues)
        ])
        else some queues
  ]

  unfoldable pub create_all :
      String → Dict Limits → Bool → ℕ → List String → Dict Slot → Option (Dict Slot)
  create_all my_ip config new_conf now [] queues = some queues
  create_all my_ip config new_conf now (key ∷ keys) queues =
      elim (create_queue my_ip config new_conf now key queues) [
        | none ↦ none
        | some queues' ↦ create_all my_ip config new_conf now keys queues'
      ]

  -- create_queues; `found` is what KEYS replies for the spider's queues
  unfoldable pub create_queues : List String → ℕ → Scheduler → Option Scheduler
  create_queues found now s =
      elim (create_all s.my_ip s.domain_config s.config_flag now found s.queue_dict) [
        | none ↦ none
        | some queues ↦
            some (record s { queue_dict = queues; queue_keys = found; config_flag = false })
      ]

  -- change_config, whose last step is create_queues
  unfoldable pub change_config : Option Loaded → List String → ℕ → Scheduler → Option Scheduler
  change_config loaded found now s = elim (take_config cfg loaded s) [
    | none ↦ none
    | some s' ↦ create_queues found now s'
  ]

  -- one key of expire_queues
  unfoldable pub expire_slot : ℕ → String → Slot → Dict Slot × List String → Dict Slot × List String
  expire_slot now key slot (queues, keys) =
      if ltb (slot.used + cfg.queue_timeout) now
      then (erase key queues, without key keys)
      else (queues, keys)

  -- the loop of expire_queues over a copy of the table
  unfoldable pub expire_all : ℕ → Dict Slot → Dict Slot × List String → Dict Slot × List String
  expire_all now [] state = state
  expire_all now ((key, slot) ∷ copy) state = expire_all now copy (expire_slot now key slot state)

  unfoldable pub expire_queues : ℕ → Scheduler → Scheduler
  expire_queues now s =
      let (queues, keys) = expire_all now s.queue_dict (s.queue_dict, s.queue_keys) in
      record s { queue_dict = queues; queue_keys = keys }

  -- update_ipaddress; the argument is the address that the service and ip_regex give, if any
  unfoldable pub update_ipaddress : Option String → Scheduler → Scheduler
  update_ipaddress none s = record s { my_ip = "127.0.0.1" }
  update_ipaddress (some ip) s = record s { my_ip = ip }

  unfoldable pub refresh_queues : Outside → Scheduler → Option Scheduler
  refresh_queues o s =
      if ltb (s.update_time + cfg.update_interval) o.time
      then (elim (create_queues o.found o.time (record s { update_time = o.time })) [
        | none ↦ none
        | some s' ↦ some (expire_queues o.time s')
      ])
      else some s

  module _ (r : Redis) (c : TimeText) where
    open r use {Db}

    -- report_self, over the names of the host and of the process
    unfoldable pub report_self : String → String → ℕ → Db → Db
    report_self host uuid now d =
        let key = "stats:crawler:" ++ (host ++ (":" ++ (cfg.spider ++ (":" ++ uuid)))) in
        r.expire key (cfg.ip_update_interval * 2 / second) (r.put key (c.show now) d)

    unfoldable pub refresh_ip : Outside → Scheduler → Db → Scheduler × Db
    refresh_ip o s d =
        if ltb (s.update_ip_time + cfg.ip_update_interval) o.time
        then (
          update_ipaddress o.address (record s { update_ip_time = o.time }),
          report_self o.host o.uuid o.time d,
        )
        else (s, d)

    -- next_request up to its call of find_item
    unfoldable pub refresh : Outside → Scheduler → Db → Option (Scheduler × Db)
    refresh o s d = elim (refresh_queues o s) [ none ↦ none | some s' ↦ some (refresh_ip o s' d) ]

    -- `close` of the scheduler deletes the queues of the keys that it knows
    unfoldable pub clear_queues : List String → Db → Db
    clear_queues [] d = d
    clear_queues (key ∷ keys) d = clear_queues keys (r.delete key d)

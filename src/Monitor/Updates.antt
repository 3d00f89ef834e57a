-- ===== src/Monitor/Updates.antt =====
-- The whole `handle` of the Zookeeper plugin (redis-monitor/plugins/zookeeper_monitor.py): the
-- reading of the request, the change of the configuration, and the answer.
use scrapy_cluster.Prelude.{
  ℕ, String, Bool, true, false, Option, none, some, List, [], ◌∷◌, str_eq, if◌then◌else◌,
}
use scrapy_cluster.Text.{split}
use scrapy_cluster.Monitor.Kafka.{send_to_kafka}
use scrapy_cluster.Monitor.Zookeeper.{Domain, Stored, zookeeper_handle}

-- the loaded value: the uuid, and the three fields of a domain where it has them
pub record Wanted : Type 0 where
  pub uuid : String
  pub domain : Option Domain

-- the dict that is sent
pub record Master : Type 0 where
  pub uuid : String
  pub server_time : ℕ
  pub action : String
  pub domain : String
  pub appid : String
  pub error : Option String

abbrev pub updates_appid : Master → String
updates_appid m = m.appid

-- the last error that was met
unfoldable pub error_of : (readable writable : Bool) → Option String
error_of true true = none
error_of false true = some "Unable to load Zookeeper config"
error_of true false = some "Unable to store Zookeeper config"
error_of false false = some "Unable to store Zookeeper config"

-- the value that the action uses: only domain-update reads the fields, and misses them with a KeyError
unfoldable pub value_for : String → Domain → Option Domain → Option Domain
value_for action unused (some value) = some value
value_for action unused none = if str_eq action "domain-update" then none else some unused

module _ (members : List String → List String) (loads : String → Option Wanted) (unused : Domain)
    (prefix : String) (use_appid_topics : Bool) (accepts : String → Bool) (seconds : ℕ) where
  -- what handle leaves in Zookeeper, whether the answer was sent, and the topics
  pub record Updated : Type 0 where
    pub stored : Stored
    pub sent : Bool
    pub out : List (String × Master)

  -- what follows the reading of the request
  unfoldable pub update_and_answer :
      (readable writable : Bool)
      → (action domain appid uuid : String) → Domain
      → Stored
      → List (String × Master)
      → Updated
  update_and_answer readable writable action domain appid uuid value s out =
      let (sent, out') =
        send_to_kafka updates_appid prefix use_appid_topics accepts
          (record {
            uuid = uuid;
            server_time = seconds;
            action = action;
            domain = domain;
            appid = appid;
            error = error_of readable writable;
          })
          out in
      record {
        stored = zookeeper_handle members readable writable action domain value s;
        sent = sent;
        out = out';
      }

  -- handle over the parts of the key; none is an exception, before which nothing was changed
  unfoldable pub handle_parts :
      (readable writable : Bool)
      → List String
      → (value : String) → Stored
      → List (String × Master)
      → Option Updated
  handle_parts readable writable (a ∷ action ∷ domain ∷ appid ∷ more) value s out =
      elim (loads value) [
        | none ↦ none
        | some wanted ↦ elim (value_for action unused wanted.domain) [
          | none ↦ none
          | some fields ↦
              some
                (update_and_answer readable writable action domain appid wanted.uuid fields s out)
        ]
      ]
  handle_parts readable writable [] value s out = none
  handle_parts readable writable (a ∷ []) value s out = none
  handle_parts readable writable (a ∷ action ∷ []) value s out = none
  handle_parts readable writable (a ∷ action ∷ domain ∷ []) value s out = none

  unfoldable pub update_handle :
      (readable writable : Bool)
      → (key value : String) → Stored
      → List (String × Master)
      → Option Updated
  update_handle readable writable key value s out =
      handle_parts readable writable (split key) value s out

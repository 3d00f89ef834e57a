-- ===== src/Monitor/Kafka.antt =====
-- The answers to Kafka of the Redis monitor's plugins (redis-monitor/plugins/kafka_base_monitor.py).
use Prim.Native.String.{◌++◌}
use scrapy_cluster.Prelude.{
  ℕ, String, Bool, true, false, not, ◌&&◌, Option, List, ◌∷◌, if◌then◌else◌,
}

-- the dict of an answer
pub record Ack : Type 0 where
  pub action : String
  pub spiderid : String
  pub appid : String
  pub crawlid : String
  pub total : ℕ
  pub uuid : Option String
  pub server_time : ℕ

abbrev pub ack_appid : Ack → String
ack_appid ack = ack.appid

-- What was sent, the last first: topic and answer, which has an appid. `accepts` says where the
-- producer's `send` does not raise.
module _ {M : Type 0} (appid_of : M → String) (prefix : String) (use_appid_topics : Bool)
    (accepts : String → Bool) where
  abbrev pub appid_topic : M → String
  appid_topic ack = prefix ++ (".outbound_" ++ appid_of ack)

  abbrev pub firehose_topic : String
  firehose_topic = prefix ++ ".outbound_firehose"

  -- _send_to_kafka
  unfoldable pub send_to_kafka : M → List (String × M) → Bool × List (String × M)
  send_to_kafka ack out =
      if use_appid_topics && not (accepts (appid_topic ack))
      then (false, out)
      else (let out' = if use_appid_topics then (appid_topic ack, ack) ∷ out else out in
          if accepts firehose_topic then (true, (firehose_topic, ack) ∷ out') else (false, out'))

-- ===== src/Rest/Messages.antt =====
-- What the threads of the REST service do with Kafka's messages and with Redis
-- (rest/rest_service.py: _process_messages, _send_result_to_redis, _report_self).
use Prim.Native.String.{◌++◌}
use scrapy_cluster.Prelude.{
  ℕ, String, Bool, true, false, Option, none, some, List, [], ◌∷◌, lookup, insert, if◌then◌else◌,
}
use scrapy_cluster.Redis.{Redis}
use scrapy_cluster.Rest.{Json, Slot, waiting, poll, response, Service, spawn_redis, spawn_kafka}

-- the state of a connection to a Kafka broker
pub data ConnectionState : Type 0 where
  connected : ConnectionState
  connecting : ConnectionState
  disconnected : ConnectionState
  disconnecting : ConnectionState

-- what the consumer gives: None, a message's text, or an OffsetOutOfRangeError
pub data Message : Type 0 where
  no_message : Message
  message : String → Message
  out_of_range : Message

-- the key of a poll
abbrev pub poll_key : String → String
poll_key uuid = "rest:poll:" ++ uuid

module _ (r : Redis) (j : Json) where
  open r use {Db}
  open j use {Doc}

  -- _send_result_to_redis; `up` says whether the call of Redis is made, and does not raise
  unfoldable pub send_result_to_redis : Bool → String → Doc → Service r j → Service r j
  unfolding spawn_redis
  send_result_to_redis up uuid x s =
      if s.redis_connected
      then (if up
          then record s { db = r.put (poll_key uuid) (j.dumps x) s.db }
          else spawn_redis r j s)
      else s

  -- a slot that takes a response: one that is there, and is not 'poll'
  abbrev pub takes_response : Option (Slot Doc) → Bool
  takes_response none = false
  takes_response (some poll) = false
  takes_response (some waiting) = true
  takes_response (some (response _)) = true

  -- the part of _process_messages under the lock
  unfoldable pub take_message : Bool → Doc → Service r j → Service r j
  take_message up x s = elim (j.uuid x) [
    | none ↦ s
    | some uuid ↦
        if takes_response (lookup uuid s.uuids)
        then record s { uuids = insert uuid (response x) s.uuids }
        else send_result_to_redis up uuid x s
  ]

  -- one message of _process_messages; a text that is not JSON is a ValueError
  unfoldable pub take_value : Bool → String → Service r j → Service r j
  take_value up value s = elim (j.loads value) [ none ↦ s | some x ↦ take_message up x s ]

  -- _check_kafka_disconnect
  unfoldable pub check_kafka_disconnect : List ConnectionState → Service r j → Service r j
  check_kafka_disconnect [] s = s
  check_kafka_disconnect (disconnected ∷ conns) s = spawn_kafka r j s
  check_kafka_disconnect (disconnecting ∷ conns) s = spawn_kafka r j s
  check_kafka_disconnect (connected ∷ conns) s = check_kafka_disconnect conns s
  check_kafka_disconnect (connecting ∷ conns) s = check_kafka_disconnect conns s

  -- _process_messages; the connections are looked at where no OffsetOutOfRangeError ends the call
  unfoldable pub process_messages :
      Bool → List ConnectionState → List Message → Service r j → Service r j
  process_messages up conns [] s = check_kafka_disconnect conns s
  process_messages up conns (no_message ∷ messages) s = check_kafka_disconnect conns s
  process_messages up conns (out_of_range ∷ messages) s = s
  process_messages up conns (message value ∷ messages) s =
      process_messages up conns messages (take_value up value s)

  -- one turn of _consumer_loop
  unfoldable pub consumer_turn :
      Bool → List ConnectionState → List Message → Service r j → Service r j
  consumer_turn up conns messages s =
      if s.closed then s else if s.kafka_connected then process_messages up conns messages s else s

  -- _report_self, over the host's name, the service's own id, the text of the time, and the timeout
  unfoldable pub report_self : Bool → String → String → String → ℕ → Service r j → Service r j
  report_self up host my_uuid now timeout s =
      let key = "stats:rest:self:" ++ (host ++ (":" ++ my_uuid)) in
      if s.redis_connected
      then (if up
          then record s { db = r.expire key timeout (r.put key now s.db) }
          else spawn_redis r j s)
      else s

-- ===== src/Rest/Routes.antt =====
-- The routes of the REST service (rest/rest_service.py: index, catch, feed, poll).
use scrapy_cluster.Prelude.{
  ℕ, ◌+◌, ◌-◌, ◌/◌, zero, suc, String, Bool, true, false, Option, none, some, lookup, insert, erase,
  is_some, leb, ◌⊎◌, if◌then◌else◌,
}
use scrapy_cluster.Redis.{Redis}
use scrapy_cluster.Throttle.{second}
use scrapy_cluster.Rest.{
  Json, Slot, waiting, poll, response, Payload, found, poll_later, node, Returned, plain, coded,
  index_data, raised, Answer, Body, create_ret_object, failure, error_catch, validate_json,
  validate_schema, Service, spawn_redis, spawn_kafka, calculate_health,
}
use scrapy_cluster.Rest.Messages.{poll_key}

-- how the wait for a response ends
pub data Outcome (D : Type 0) : Type 0 where
  timed_out : Outcome D
  got : Slot D → Outcome D
  -- a KeyError: the entry is gone
  missing : Outcome D

-- what becomes of a send to Kafka: the future is confirmed in time, it ends in a KafkaError, or the
-- producer raises before there is a future
pub data Send : Type 0 where
  confirmed : Send
  unconfirmed : Send
  send_raises : Send

module _ (r : Redis) (j : Json) where
  open j use {Doc}

  -- catch
  unfoldable pub catch : Answer Doc
  catch = error_catch (coded (failure "The desired endpoint does not exist") 404)

  -- index, with times in microseconds
  unfoldable pub index : ℕ → ℕ → Service r j → Answer Doc
  index now start_time s = error_catch (
      index_data (
        node s.kafka_connected s.redis_connected ((now - start_time) / second)
          (calculate_health r j s)))

  -- _feed_to_kafka: none is an exception of the producer, which the method does not catch; `meanwhile`
  -- is what the other threads do during the call
  unfoldable pub feed_to_kafka :
      Send → (Service r j → Service r j) → Service r j → Option Bool × Service r j
  feed_to_kafka confirmed meanwhile s = (some true, meanwhile s)
  feed_to_kafka unconfirmed meanwhile s = (some false, spawn_kafka r j (meanwhile s))
  feed_to_kafka send_raises meanwhile s = (none, meanwhile s)

  -- The `while` loop of feed. `clock` gives the time at each turn, `others` what the other threads do
  -- between the turn's look at the time and its look at the entry; the look, the read and the
  -- deletion of an entry that is found are one step. No fuel left is none.
  unfoldable pub wait :
      ℕ
      → ℕ
      → (ℕ → ℕ)
      → (ℕ → Service r j → Service r j)
      → String
      → ℕ
      → ℕ
      → Service r j
      → Option (Outcome Doc × Service r j)
  wait limit start clock others uuid zero i s = none
  wait limit start clock others uuid (suc fuel) i s =
      let s' = others i s in
      let rest = wait limit start clock others uuid fuel (i + 1) s' in
      if leb ((clock i - start) / second) limit
      then elim (lookup uuid s'.uuids) [
        | none ↦ some (missing, s')
        | some waiting ↦ rest
        | some poll ↦ some (got poll, record s' { uuids = erase uuid s'.uuids })
        | some (response x) ↦ some (got (response x), record s' { uuids = erase uuid s'.uuids })
      ]
      else some (timed_out, s)

  -- the `else` of the loop, which runs whenever the loop's test fails
  unfoldable pub after_wait : String → Service r j → Service r j
  after_wait uuid s =
      if is_some (lookup uuid s.uuids) then record s { uuids = insert uuid poll s.uuids } else s

  abbrev pub no_kafka : Returned Doc
  no_kafka = coded (failure "Unable to connect to Kafka") 500

  abbrev pub success : Option (Payload Doc) → Returned Doc
  success payload = plain (create_ret_object "SUCCESS" payload false none none)

  -- what feed makes of the loop's end
  unfoldable pub finish : String → Outcome Doc × Service r j → Returned Doc × Service r j
  finish uuid (timed_out, s) = (success (some (poll_later uuid)), after_wait uuid s)
  finish uuid (got slot, s) = (success (some (found slot)), after_wait uuid s)
  finish uuid (missing, s) = (raised, s)

  unfoldable pub finish? :
      String → Option (Outcome Doc × Service r j) → Option (Returned Doc × Service r j)
  finish? uuid none = none
  finish? uuid (some end) = some (finish uuid end)

  -- The body of feed in parts. The parameters are WAIT_FOR_RESPONSE_TIME, the fuel, the time when the
  -- wait starts, the clock, what becomes of the send, and what the other threads do.
  module _ (limit fuel start : ℕ) (clock : ℕ → ℕ) (sent : Send)
      (meanwhile : Service r j → Service r j) (others : ℕ → Service r j → Service r j) where
    -- an item with a uuid, once it was sent: it is registered, and its response is waited for
    unfoldable pub await : String → Bool → Service r j → Option (Returned Doc × Service r j)
    await uuid result s =
        let s' = record s { uuids = insert uuid waiting s.uuids } in
        if result
        then finish? uuid (wait limit start clock others uuid fuel 0 s')
        else some (no_kafka, s')

    -- what follows _feed_to_kafka
    unfoldable pub after_send :
        Option String → Bool → Service r j → Option (Returned Doc × Service r j)
    after_send none result s = if result then some (success none, s) else some (no_kafka, s)
    after_send (some uuid) result s = await uuid result s

    unfoldable pub after_kafka :
        Option String → Option Bool × Service r j → Option (Returned Doc × Service r j)
    after_kafka id (none, s) = some (raised, s)
    after_kafka id (some result, s) = after_send id result s

    unfoldable pub feed : Doc → Service r j → Option (Returned Doc × Service r j)
    feed x s =
        if s.kafka_connected
        then after_kafka (j.uuid x) (feed_to_kafka sent meanwhile s)
        else some (no_kafka, s)

  -- error_catch around feed
  unfoldable pub catch_feed :
      Option (Returned Doc × Service r j) → Option (Answer Doc × Service r j)
  catch_feed none = none
  catch_feed (some (returned, s)) = some (error_catch returned, s)

  -- the decorated feed
  unfoldable pub feed_endpoint :
      ℕ
      → ℕ
      → ℕ
      → (ℕ → ℕ)
      → Send
      → (Service r j → Service r j)
      → (ℕ → Service r j → Service r j)
      → Body Doc
      → Service r j
      → Option (Answer Doc × Service r j)
  feed_endpoint limit fuel start clock sent meanwhile others =
      validate_json some (λ x s. catch_feed (feed limit fuel start clock sent meanwhile others x s))

  abbrev pub no_redis : Returned Doc
  no_redis = coded (failure "Unable to connect to Redis") 500

  abbrev pub deleted : String → Service r j → Service r j
  deleted id s = record s { db = r.delete (poll_key id) s.db }

  -- the rest of poll's `try`, and its `except ValueError`, once the key's value is read: what json
  -- makes of the value, none for a ValueError
  unfoldable pub poll_loaded : Bool → String → Option Doc → Service r j → Returned Doc × Service r j
  poll_loaded delete_up id none s =
      if delete_up
      then (coded (failure "Unparseable JSON Received from redis") 500, deleted id s)
      else (raised, s)
  poll_loaded delete_up id (some x) s =
      if delete_up
      then (success (some (found (response x))), deleted id s)
      else (no_redis, spawn_redis r j s)

  unfoldable pub poll_reply :
      Bool → String → Option String → Service r j → Returned Doc × Service r j
  poll_reply delete_up id none s = (coded (failure "Could not find matching poll_id") 404, s)
  poll_reply delete_up id (some value) s = poll_loaded delete_up id (j.loads value) s

  -- The body of poll. `get_up` and `delete_up` say whether the calls of Redis are made and do not
  -- raise ConnectionError.
  unfoldable pub poll_body : Bool → Bool → String → Service r j → Returned Doc × Service r j
  poll_body get_up delete_up id s =
      if s.redis_connected
      then (if get_up
          then poll_reply delete_up id (r.get (poll_key id) s.db) s
          else (no_redis, spawn_redis r j s))
      else (no_redis, s)

  -- poll without its decorators; a dict without the id is a KeyError
  unfoldable pub poll_route : Bool → Bool → Doc → Service r j → Answer Doc × Service r j
  poll_route get_up delete_up x s = elim (j.poll_id x) [
    | none ↦
        if s.redis_connected
        then (error_catch raised, s)
        else (error_catch (coded (failure "Unable to connect to Redis") 500), s)
    | some id ↦ let (returned, s') = poll_body get_up delete_up id s in (error_catch returned, s')
  ]

  -- the decorated poll, over the schema's validator
  unfoldable pub poll_endpoint :
      (Doc → String ⊎ Doc) → Bool → Bool → Body Doc → Service r j → Answer Doc × Service r j
  poll_endpoint validate get_up delete_up =
      validate_json (λ a. a) (validate_schema validate (poll_route get_up delete_up))

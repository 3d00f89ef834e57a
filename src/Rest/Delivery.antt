-- ===== src/Rest/Delivery.antt =====
-- A request and its response, for rest/rest_service.py: the client that waits gets it, and the one
-- that waited too long finds it with `poll`.
use scrapy_cluster.Prelude.{
  ℕ, ◌+◌, zero, suc, String, ◌≡◌, refl, ap, sym, subst, ◌∙◌, Bool, true, false, none, some, List,
  arith, eq_refl, Dict, lookup, insert, erase, lookup-insert, lookup-erase, Distinct,
  insert-Distinct, erase-Distinct,
}
use scrapy_cluster.Redis.{Redis}
use scrapy_cluster.Rest.{
  Json, Slot, waiting, poll, response, found, poll_later, coded, failure, Service,
}
use scrapy_cluster.Rest.Messages.{
  ConnectionState, Message, poll_key, takes_response, take_message, send_result_to_redis,
  process_messages,
}
use scrapy_cluster.Rest.Answers.{last_answer, entry, process_messages-entry, process_messages-uuids}
use scrapy_cluster.Rest.Routes.{
  finish?, after_send, await, poll_loaded, poll_reply, Outcome, timed_out, got, wait, after_wait,
  success, finish, feed, feed_to_kafka, after_kafka, confirmed, poll_body,
}
use scrapy_cluster.Rest.Waiting.{in_time, wait-entry}

-- The consumer thread hands over a batch of messages in each turn of the wait.
module _ (r : Redis) (j : Json) (limit start : ℕ) (clock : ℕ → ℕ) (ups : ℕ → Bool)
    (conns : ℕ → List ConnectionState) (batches : ℕ → List Message) (uuid : String) where
  open j use {Doc}

  abbrev pub consumer : ℕ → Service r j → Service r j
  consumer i s = process_messages r j (ups i) (conns i) (batches i) s

  -- from turn i on, n turns in time whose batches have no response
  abbrev pub Quiet : ℕ → ℕ → Type 0
  Quiet i zero = Unit
  Quiet i (suc n) =
      (in_time r j limit start clock consumer uuid i ≡ true)
      × (last_answer r j uuid (batches i) ≡ none)
      × Quiet (suc i) n

  consumer-entry :
      (i : ℕ) (s : Service r j)
      → lookup uuid s.uuids ≡ some waiting
      → lookup uuid (consumer i s).uuids
        ≡ entry r j (some waiting) (last_answer r j uuid (batches i))
  consumer-entry i s here =
      process_messages-entry r j (ups i) (conns i) uuid (batches i) s
        (subst (λ o. takes_response r j o ≡ true) (sym here) refl)
      ∙ ap (λ o. entry r j o (last_answer r j uuid (batches i))) here

  consumer-Distinct : (i : ℕ) (s : Service r j) → Distinct s.uuids → Distinct (consumer i s).uuids
  consumer-Distinct i s h =
      process_messages-uuids r j Distinct (λ id x d _ g. insert-Distinct id (response x) d g)
        (ups i) (conns i) (batches i) s h

  -- after quiet turns the wait goes on with the same entry
  quiet_lem :
      (n i fuel : ℕ) (s : Service r j)
      → Quiet i n
      → Distinct s.uuids
      → lookup uuid s.uuids ≡ some waiting
      → (s' : Service r j) × (wait r j limit start clock consumer uuid (n + fuel) i s
          ≡ wait r j limit start clock consumer uuid fuel (i + n) s')
        × Distinct s'.uuids
        × (lookup uuid s'.uuids ≡ some waiting)
  quiet_lem zero i fuel s q d here =
      let no_fuel : 0 + fuel ≡ fuel = omega arith in
      let no_turn : i + 0 ≡ i = omega arith in (s, cc (no_fuel, no_turn), d, here)
  quiet_lem (suc n) i fuel s q d here =
      let look : lookup uuid (consumer i s).uuids ≡ some waiting =
        consumer-entry i s here ∙ ap (entry r j (some waiting)) q.1 in
      let (s', goes, d', here') =
        quiet_lem n (suc i) fuel (consumer i s) q.2 (consumer-Distinct i s d) look in
      let fuel_suc : suc n + fuel ≡ suc (n + fuel) = omega arith in
      let next : i + 1 ≡ suc i = omega arith in
      let turn : suc i + n ≡ i + suc n = omega arith in
      let first =
        wait-entry r j limit start clock consumer uuid (n + fuel) i s {slot = some waiting} q.0
          look in
      (s', cc (fuel_suc, next, turn, first, goes), d', here')

  -- The consumer hands over a response while the request waits: the wait gets it, and the entry is
  -- gone.
  pub wait-Response :
      (n more : ℕ) (x : Doc) (s : Service r j)
      → Quiet 0 n
      → in_time r j limit start clock consumer uuid n ≡ true
      → last_answer r j uuid (batches n) ≡ some x
      → Distinct s.uuids
      → lookup uuid s.uuids ≡ some waiting
      → (s' : Service r j) × (wait r j limit start clock consumer uuid (n + suc more) 0 s
          ≡ some (got (response x), s'))
        × Distinct s'.uuids
        × (lookup uuid s'.uuids ≡ none)
  wait-Response n more x s q now answered d here =
      let (s', goes, d', here') = quiet_lem n 0 (suc more) s q d here in
      let turn : 0 + n ≡ n = omega arith in
      let look : lookup uuid (consumer n s').uuids ≡ some (response x) =
        consumer-entry n s' here' ∙ ap (entry r j (some waiting)) answered in
      let last =
        wait-entry r j limit start clock consumer uuid more n s' {slot = some (response x)} now
          look in
      let kept = consumer-Distinct n s' d' in
      (
        record (consumer n s') { uuids = erase uuid (consumer n s').uuids },
        cc (goes, turn, last),
        erase-Distinct uuid (consumer n s').uuids kept,
        lookup-erase uuid (consumer n s').uuids kept,
      )

  -- No response comes in time: the wait times out with the entry as it was.
  pub wait-Quiet :
      (n more : ℕ) (s : Service r j)
      → Quiet 0 n
      → in_time r j limit start clock consumer uuid n ≡ false
      → Distinct s.uuids
      → lookup uuid s.uuids ≡ some waiting
      → (s' : Service r j) × (wait r j limit start clock consumer uuid (n + suc more) 0 s
          ≡ some (timed_out, s'))
        × Distinct s'.uuids
        × (lookup uuid s'.uuids ≡ some waiting)
  unfolding wait
  wait-Quiet n more s q late d here =
      let (s', goes, d', here') = quiet_lem n 0 (suc more) s q d here in
      let late' : in_time r j limit start clock consumer uuid (0 + n) ≡ false =
        subst (λ k. in_time r j limit start clock consumer uuid k ≡ false) (omega arith) late in
      (s', goes ∙ rw late' refl, d', here')

  -- feed with Kafka's confirmation
  feed_sent :
      (fuel : ℕ) (meanwhile : Service r j → Service r j) (x : Doc) (s : Service r j)
      {out : Outcome Doc × Service r j}
      → s.kafka_connected ≡ true
      → j.uuid x ≡ some uuid
      → wait r j limit start clock consumer uuid fuel 0
          (record (meanwhile s) { uuids = insert uuid waiting (meanwhile s).uuids })
        ≡ some out
      → feed r j limit fuel start clock confirmed meanwhile consumer x s
        ≡ some (finish r j uuid out)
  unfolding feed after_kafka after_send await feed_to_kafka finish?
  feed_sent fuel meanwhile x s up named ends = simp (up, named) (ap (finish? r j uuid) ends)

  finish-got :
      (x : Doc) (s : Service r j)
      → lookup uuid s.uuids ≡ none
      → finish r j uuid (got (response x), s) ≡ (success r j (some (found (response x))), s)
  unfolding finish after_wait
  finish-got x s gone = ground (arith, gone)

  finish-timed_out :
      (s : Service r j)
      → lookup uuid s.uuids ≡ some waiting
      → finish r j uuid (timed_out, s)
        ≡ (success r j (some (poll_later uuid)), record s { uuids = insert uuid poll s.uuids })
  unfolding finish after_wait
  finish-timed_out s here = ground (arith, here)

  registered-waiting : (d : Dict (Slot Doc)) → lookup uuid (insert uuid waiting d) ≡ some waiting
  registered-waiting d = lookup-insert uuid uuid waiting d ∙ rw eq_refl refl

  -- A request with a uuid, which Kafka confirms while the service is connected: if the consumer
  -- hands over a response in a turn of the wait that is in time, and none before, the answer is a
  -- success with that response, whatever fuel is left, and no entry stays behind.
  pub feed-Response :
      (n more : ℕ) (meanwhile : Service r j → Service r j) (x y : Doc) (s : Service r j)
      → s.kafka_connected ≡ true
      → j.uuid x ≡ some uuid
      → Distinct (meanwhile s).uuids
      → Quiet 0 n
      → in_time r j limit start clock consumer uuid n ≡ true
      → last_answer r j uuid (batches n) ≡ some y
      → (s' : Service r j) × (feed r j limit
            (n + suc more)
            start
            clock
            confirmed
            meanwhile
            consumer
            x
            s
          ≡ some (success r j (some (found (response y))), s'))
        × (lookup uuid s'.uuids ≡ none)
  feed-Response n more meanwhile x y s up named d q now answered =
      let (s', ends, _, gone) =
        wait-Response n more y
          (record (meanwhile s) { uuids = insert uuid waiting (meanwhile s).uuids }) q now answered
          (insert-Distinct uuid waiting (meanwhile s).uuids d)
          (registered-waiting (meanwhile s).uuids) in
      (
        s',
        feed_sent (n + suc more) meanwhile x s up named ends ∙ ap some (finish-got y s' gone),
        gone,
      )

  -- The same where no response comes before the time is over: the answer is a success with the
  -- uuid as the poll id, and the entry says that the response is polled for.
  pub feed-Quiet :
      (n more : ℕ) (meanwhile : Service r j → Service r j) (x : Doc) (s : Service r j)
      → s.kafka_connected ≡ true
      → j.uuid x ≡ some uuid
      → Distinct (meanwhile s).uuids
      → Quiet 0 n
      → in_time r j limit start clock consumer uuid n ≡ false
      → (s' : Service r j) × (feed r j limit
            (n + suc more)
            start
            clock
            confirmed
            meanwhile
            consumer
            x
            s
          ≡ some (success r j (some (poll_later uuid)), s'))
        × (lookup uuid s'.uuids ≡ some poll)
  feed-Quiet n more meanwhile x s up named d q late =
      let (s', ends, _, kept) =
        wait-Quiet n more (record (meanwhile s) { uuids = insert uuid waiting (meanwhile s).uuids })
          q late (insert-Distinct uuid waiting (meanwhile s).uuids d)
          (registered-waiting (meanwhile s).uuids) in
      (
        record s' { uuids = insert uuid poll s'.uuids },
        feed_sent (n + suc more) meanwhile x s up named ends ∙ ap some (finish-timed_out s' kept),
        lookup-insert uuid uuid poll s'.uuids ∙ rw eq_refl refl,
      )

module _ (r : Redis) (j : Json) where
  open j use {Doc}

  stored_lem :
      (x : Doc) (uuid : String) (s : Service r j)
      → j.uuid x ≡ some uuid
      → takes_response r j (lookup uuid s.uuids) ≡ false
      → s.redis_connected ≡ true
      → take_message r j true x s ≡ record s { db = r.put (poll_key uuid) (j.dumps x) s.db }
  unfolding take_message send_result_to_redis
  stored_lem x uuid s named late up = rw (named, take_message, late) (simp up refl)

  poll_body-some :
      (x : Doc) (uuid : String) (s : Service r j)
      → s.redis_connected ≡ true
      → r.get (poll_key uuid) s.db ≡ some (j.dumps x)
      → poll_body r j true true uuid s
        ≡ (success r j (some (found (response x))), record s { db = r.delete (poll_key uuid) s.db })
  unfolding poll_body poll_reply poll_loaded
  poll_body-some x uuid s up there = simp (up, there, j.loads-dumps) refl

  poll_body-none :
      (uuid : String) (s : Service r j)
      → s.redis_connected ≡ true
      → r.get (poll_key uuid) s.db ≡ none
      → poll_body r j true true uuid s ≡ (coded (failure "Could not find matching poll_id") 404, s)
  unfolding poll_body poll_reply poll_loaded
  poll_body-none uuid s up away = simp (up, away) refl

  -- A response that no request waits for: with Redis connected it is stored, the first poll of its
  -- uuid returns it, and the next poll finds nothing.
  pub take_message-poll :
      (x : Doc) (uuid : String) (s : Service r j)
      → j.uuid x ≡ some uuid
      → takes_response r j (lookup uuid s.uuids) ≡ false
      → s.redis_connected ≡ true
      → (s' : Service r j) × (poll_body r j true true uuid (take_message r j true x s)
          ≡ (success r j (some (found (response x))), s'))
        × (poll_body r j true true uuid s'
            ≡ (coded (failure "Could not find matching poll_id") 404, s'))
  take_message-poll x uuid s named late up =
      let key = poll_key uuid in
      let stored : Service r j = record s { db = r.put key (j.dumps x) s.db } in
      let polled : Service r j = record s { db = r.delete key stored.db } in
      (
        polled,
        ap (poll_body r j true true uuid) (stored_lem x uuid s named late up)
            ∙ poll_body-some x uuid stored up (r.get_some key _ (r.put_lem key (j.dumps x) s.db)),
        poll_body-none uuid polled up (r.get_none key _ (r.delete_lem key stored.db)),
      )

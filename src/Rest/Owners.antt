-- ===== src/Rest/Owners.antt =====
-- No request gets the response to another one, for rest/rest_service.py.
use scrapy_cluster.Prelude.{
  ℕ, ◌+◌, zero, suc, String, ◌≡◌, sym, subst, Bool, true, false, inl, inr, Option, none, some, List,
  [], ◌∷◌, str_eq, eq_iff, Dict, lookup, insert, erase, is_some, Bool-cases, if-P,
}
use scrapy_cluster.Redis.{Redis}
use scrapy_cluster.Rest.{
  Json, Slot, waiting, poll, response, Service, Payload, found, poll_later, node, Returned, plain,
  coded, index_data, raised, create_ret_object, spawn_kafka,
}
use scrapy_cluster.Rest.Messages.{ConnectionState, Message, process_messages}
use scrapy_cluster.Rest.Answers.{process_messages-uuids}
use scrapy_cluster.Rest.Routes.{
  Outcome, timed_out, got, missing, wait, after_wait, finish, finish?, after_send, await, feed,
  feed_to_kafka, after_kafka, Send, confirmed, unconfirmed, send_raises,
}
use scrapy_cluster.Rest.Waiting.{in_time}

module _ (r : Redis) (j : Json) where
  open j use {Doc}

  -- a slot of this uuid: a response in it is one to this uuid
  abbrev pub Own : String → Slot Doc → Type 0
  Own id waiting = Unit
  Own id poll = Unit
  Own id (response x) = j.uuid x ≡ some id

  -- every entry holds what is its own
  abbrev pub Owned : Dict (Slot Doc) → Type 0
  Owned [] = Unit
  Owned ((id, slot) ∷ d) = Own id slot × Owned d

  abbrev pub Own? : String → Option (Slot Doc) → Type 0
  Own? id none = Unit
  Own? id (some slot) = Own id slot

  pub lookup-Own : (id : String) (d : Dict (Slot Doc)) → Owned d → Own? id (lookup id d)
  lookup-Own id [] h = tt
  lookup-Own id ((k, slot) ∷ d) h = elim (Bool-cases (str_eq k id)) [
    | inl same ↦ rw same (subst (λ i. Own i slot) ((eq_iff k id).0 same) h.0)
    | inr other ↦ rw other (lookup-Own id d h.1)
  ]

  pub insert-Owned :
      (id : String) (slot : Slot Doc) (d : Dict (Slot Doc))
      → Own id slot
      → Owned d
      → Owned (insert id slot d)
  insert-Owned id slot [] own h = (own, tt)
  insert-Owned id slot ((k, old) ∷ d) own h = elim (Bool-cases (str_eq k id)) [
    | inl same ↦ rw same (subst (λ i. Own i slot) (sym ((eq_iff k id).0 same)) own, h.1)
    | inr other ↦ rw other (h.0, insert-Owned id slot d own h.1)
  ]

  pub erase-Owned : (id : String) (d : Dict (Slot Doc)) → Owned d → Owned (erase id d)
  erase-Owned id [] h = tt
  erase-Owned id ((k, old) ∷ d) h =
      if-P Owned (str_eq k id) d ((k, old) ∷ erase id d) h.1 (h.0, erase-Owned id d h.1)

  -- Kafka's messages keep every entry its own.
  pub process_messages-Owned :
      (up : Bool) (conns : List ConnectionState) (messages : List Message) (s : Service r j)
      → Owned s.uuids
      → Owned (process_messages r j up conns messages s).uuids
  process_messages-Owned up conns messages s =
      process_messages-uuids r j Owned (λ id x d named h. insert-Owned id (response x) d named h) up
        conns messages s

  module _ (limit start : ℕ) (clock : ℕ → ℕ) (others : ℕ → Service r j → Service r j)
      (uuid : String)
      (keep : (i : ℕ) (s : Service r j) → Owned s.uuids → Owned (others i s).uuids) where
    -- what the wait's end gives is the waiting request's own
    abbrev pub Gives : Option (Outcome Doc × Service r j) → Type 0
    Gives none = Unit
    Gives (some (timed_out, s)) = Owned s.uuids
    Gives (some (got slot, s)) = Own uuid slot × Owned s.uuids
    Gives (some (missing, s)) = Owned s.uuids

    Gives-turn :
        (o : Option (Slot Doc)) (s : Service r j) (rest : Option (Outcome Doc × Service r j))
        → Own? uuid o
        → Owned s.uuids
        → Gives rest
        → Gives (elim o [
          | none ↦ some (missing, s)
          | some waiting ↦ rest
          | some poll ↦ some (got poll, record s { uuids = erase uuid s.uuids })
          | some (response x) ↦ some (got (response x), record s { uuids = erase uuid s.uuids })
        ])
    Gives-turn none s rest own h later = h
    Gives-turn (some waiting) s rest own h later = later
    Gives-turn (some poll) s rest own h later = (tt, erase-Owned uuid s.uuids h)
    Gives-turn (some (response x)) s rest own h later = (own, erase-Owned uuid s.uuids h)

    -- If what the other threads do keeps every entry its own, a wait that starts so ends so, and a
    -- response that it finds is one to the uuid that it waits for.
    pub wait-Gives :
        (fuel i : ℕ) (s : Service r j)
        → Owned s.uuids
        → Gives (wait r j limit start clock others uuid fuel i s)
    unfolding wait
    wait-Gives zero i s h = tt
    wait-Gives (suc fuel) i s h =
        if-P Gives (in_time r j limit start clock others uuid i) _ _
          (Gives-turn (lookup uuid (others i s).uuids) (others i s) _
            (lookup-Own uuid (others i s).uuids (keep i s h)) (keep i s h)
            (wait-Gives fuel (i + 1) (others i s) (keep i s h)))
          h

  -- the response in an answer to a request of this uuid is one to it, and the entries are Owned
  abbrev pub OwnPayload : Option String → Option (Payload Doc) → Type 0
  OwnPayload id none = Unit
  OwnPayload id (some (found (response y))) = j.uuid y ≡ id
  OwnPayload id (some (found waiting)) = Unit
  OwnPayload id (some (found poll)) = Unit
  OwnPayload id (some (poll_later key)) = Unit
  OwnPayload id (some (node kafka redis uptime health)) = Unit

  abbrev pub OwnReturned : Option String → Returned Doc → Type 0
  OwnReturned id (plain ret) = OwnPayload id ret.payload
  OwnReturned id (coded ret code) = OwnPayload id ret.payload
  OwnReturned id (index_data p) = OwnPayload id (some p)
  OwnReturned id raised = Unit

  abbrev pub OwnResult : Option String → Option (Returned Doc × Service r j) → Type 0
  OwnResult id none = Unit
  OwnResult id (some (returned, s)) = OwnReturned id returned × Owned s.uuids

  after_wait-Owned :
      (uuid : String) (s : Service r j) → Owned s.uuids → Owned (after_wait r j uuid s).uuids
  unfolding after_wait
  after_wait-Owned uuid s h =
      if-P Kept (is_some (lookup uuid s.uuids)) _ _ (insert-Owned uuid poll s.uuids tt h) h
    where
      Kept : Service r j → Type 0
      Kept s = Owned s.uuids

  module _ (limit fuel start : ℕ) (clock : ℕ → ℕ) (sent : Send)
      (meanwhile : Service r j → Service r j) (others : ℕ → Service r j → Service r j)
      (keep_meanwhile : (s : Service r j) → Owned s.uuids → Owned (meanwhile s).uuids)
      (keep : (i : ℕ) (s : Service r j) → Owned s.uuids → Owned (others i s).uuids) where
    finish-Own :
        (uuid : String) (o : Option (Outcome Doc × Service r j))
        → Gives limit start clock others uuid keep o
        → OwnResult (some uuid) (finish? r j uuid o)
    unfolding finish? finish create_ret_object
    finish-Own uuid none h = tt
    finish-Own uuid (some (timed_out, s)) h = (tt, after_wait-Owned uuid s h)
    finish-Own uuid (some (got waiting, s)) h = (tt, after_wait-Owned uuid s h.1)
    finish-Own uuid (some (got poll, s)) h = (tt, after_wait-Owned uuid s h.1)
    finish-Own uuid (some (got (response y), s)) h = (h.0, after_wait-Owned uuid s h.1)
    finish-Own uuid (some (missing, s)) h = (tt, h)

    after_send-Own :
        (id : Option String) (result : Bool) (s : Service r j)
        → Owned s.uuids
        → OwnResult id (after_send r j limit fuel start clock sent meanwhile others id result s)
    unfolding after_send await create_ret_object
    after_send-Own none true s h = (tt, h)
    after_send-Own none false s h = (tt, h)
    after_send-Own (some uuid) true s h = finish-Own uuid _ (
        wait-Gives limit start clock others uuid keep fuel 0 _
          (insert-Owned uuid waiting s.uuids tt h))
    after_send-Own (some uuid) false s h = (tt, insert-Owned uuid waiting s.uuids tt h)

    abbrev OwnedSent : Option Bool × Service r j → Type 0
    OwnedSent p = Owned p.1.uuids

    feed_to_kafka-Owned :
        (send : Send) (s : Service r j)
        → Owned s.uuids
        → OwnedSent (feed_to_kafka r j send meanwhile s)
    unfolding feed_to_kafka spawn_kafka
    feed_to_kafka-Owned confirmed s h = keep_meanwhile s h
    feed_to_kafka-Owned unconfirmed s h = keep_meanwhile s h
    feed_to_kafka-Owned send_raises s h = keep_meanwhile s h

    after_kafka-Own :
        (id : Option String) (p : Option Bool × Service r j)
        → OwnedSent p
        → OwnResult id (after_kafka r j limit fuel start clock sent meanwhile others id p)
    unfolding after_kafka
    after_kafka-Own id (none, s) h = (tt, h)
    after_kafka-Own id (some result, s) h = after_send-Own id result s h

    -- If the other threads keep every entry its own: from a state that is so, whatever feed returns, the
    -- state after it is so, and a response in the answer has the uuid of the request.
    feed-OwnResult :
        (x : Doc) (s : Service r j)
        → Owned s.uuids
        → OwnResult (j.uuid x) (feed r j limit fuel start clock sent meanwhile others x s)
    unfolding feed create_ret_object
    feed-OwnResult x s h =
        if-P (OwnResult (j.uuid x)) s.kafka_connected _ _
          (after_kafka-Own (j.uuid x) _ (feed_to_kafka-Owned sent s h)) (tt, h)

  -- While a feed waits, the consumer takes any batches of messages, between steps of other threads
  -- that keep every entry its own: from a state that is so, whatever feed returns, the state after
  -- it is so, and a response in the answer has the uuid of the request.
  pub feed-Own :
      (limit fuel start : ℕ) (clock : ℕ → ℕ) (sent : Send) (meanwhile : Service r j → Service r j)
      (rest : ℕ → Service r j → Service r j) (ups : ℕ → Bool) (conns : ℕ → List ConnectionState)
      (batches : ℕ → List Message) (x : Doc) (s : Service r j)
      → ((t : Service r j) → Owned t.uuids → Owned (meanwhile t).uuids)
      → ((i : ℕ) (t : Service r j) → Owned t.uuids → Owned (rest i t).uuids)
      → Owned s.uuids
      → OwnResult (j.uuid x) (
          feed r j limit fuel start clock sent meanwhile
            (λ i t. process_messages r j (ups i) (conns i) (batches i) (rest i t))
            x
            s)
  feed-Own limit fuel start clock sent meanwhile rest ups conns batches x s keep keep_rest h =
      feed-OwnResult limit fuel start clock sent meanwhile
        (λ i t. process_messages r j (ups i) (conns i) (batches i) (rest i t)) keep
        (λ i t owned.
          process_messages-Owned (ups i) (conns i) (batches i) (rest i t) (keep_rest i t owned))
        x s h

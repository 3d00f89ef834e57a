-- ===== src/Rest/Answers.antt =====
-- What a batch of Kafka's messages does to a waiting request, for rest/rest_service.py.
use scrapy_cluster.Prelude.{
  String, ◌≡◌, refl, ap, sym, subst, ◌∙◌, Bool, true, inl, inr, Option, none, some, List, [], ◌∷◌,
  arith, str_eq, eq_iff, Dict, lookup, insert, lookup-insert, Option-cases, if-P, if◌then◌else◌,
}
use scrapy_cluster.Redis.{Redis}
use scrapy_cluster.Rest.{Json, Slot, response, Service, spawn_redis, spawn_kafka}
use scrapy_cluster.Rest.Messages.{
  ConnectionState, connected, connecting, disconnected, disconnecting, Message, no_message, message,
  out_of_range, send_result_to_redis, takes_response, take_message, take_value,
  check_kafka_disconnect, process_messages,
}

module _ (r : Redis) (j : Json) where
  open j use {Doc}

  -- the dict of a message for this uuid
  abbrev pub answer_to : String → String → Option Doc
  answer_to uuid value = elim (j.loads value) [
    | none ↦ none
    | some x ↦ elim (j.uuid x) [ none ↦ none | some id ↦ if str_eq id uuid then some x else none ]
  ]

  abbrev pub or_later : Option Doc → Option Doc → Option Doc
  or_later now none = now
  or_later now (some x) = some x

  -- the last response to a uuid that a batch gives before it ends
  unfoldable pub last_answer : String → List Message → Option Doc
  last_answer uuid [] = none
  last_answer uuid (no_message ∷ messages) = none
  last_answer uuid (out_of_range ∷ messages) = none
  last_answer uuid (message value ∷ messages) =
      or_later (answer_to uuid value) (last_answer uuid messages)

  pub send_result-uuids :
      (up : Bool) (id : String) (x : Doc) (s : Service r j)
      → (send_result_to_redis r j up id x s).uuids ≡ s.uuids
  unfolding send_result_to_redis spawn_redis
  send_result-uuids up id x s = ground arith

  pub check-uuids :
      (conns : List ConnectionState) (s : Service r j)
      → (check_kafka_disconnect r j conns s).uuids ≡ s.uuids
  unfolding check_kafka_disconnect spawn_kafka
  check-uuids [] s = refl
  check-uuids (connected ∷ conns) s = check-uuids conns s
  check-uuids (connecting ∷ conns) s = check-uuids conns s
  check-uuids (disconnected ∷ conns) s = refl
  check-uuids (disconnecting ∷ conns) s = refl

  -- the entry of a request that waits, or has a response already, after one message
  abbrev pub entry : Option (Slot Doc) → Option Doc → Option (Slot Doc)
  entry slot none = slot
  entry slot (some x) = some (response x)

  take_message-uuids :
      (up : Bool) (x : Doc) (id : String) (s : Service r j)
      → j.uuid x ≡ some id
      → (take_message r j up x s).uuids ≡ (
          if takes_response r j (lookup id s.uuids)
          then insert id (response x) s.uuids
          else s.uuids)
  unfolding take_message
  take_message-uuids up x id s h = ground (arith, h, send_result-uuids up id x s)

  takes_entry :
      (slot : Option (Slot Doc)) (o : Option Doc)
      → takes_response r j slot ≡ true
      → takes_response r j (entry slot o) ≡ true
  takes_entry slot none h = h
  takes_entry slot (some x) h = refl

  -- one message and a waiting entry
  pub take_message-entry :
      (up : Bool) (x : Doc) (uuid : String) (s : Service r j)
      → takes_response r j (lookup uuid s.uuids) ≡ true
      → lookup uuid (take_message r j up x s).uuids
        ≡ entry
            (lookup uuid s.uuids)
            (elim (j.uuid x) [ none ↦ none | some id ↦ if str_eq id uuid then some x else none ])
  unfolding take_message
  take_message-entry up x uuid s h = elim (Option-cases (j.uuid x)) [
    | inl e ↦ rw (e, take_message) refl
    | inr (id, e) ↦ ground (
      arith,
      h,
      e,
      take_message-uuids up x id s e,
      lookup-insert id uuid (response x) s.uuids,
      eq_iff id uuid,
    )
  ]

  take_value-uuids {ℓ} :
      (P : Dict (Slot Doc) → Type ℓ)
      → ((id : String) (x : Doc) (d : Dict (Slot Doc))
          → j.uuid x ≡ some id
          → P d
          → P (insert id (response x) d))
      → (up : Bool) (value : String) (s : Service r j) → P s.uuids
      → P (take_value r j up value s).uuids
  unfolding take_value take_message
  take_value-uuids P keeps up value s h = elim (Option-cases (j.loads value)) [
    | inl e ↦ rw (e, take_value) h
    | inr (x, e) ↦ elim (Option-cases (j.uuid x)) [
      | inl f ↦ rw (e, take_value, f, take_message) h
      | inr (id, f) ↦
          rw (e, take_value)
            (subst P (sym (take_message-uuids up x id s f))
              (if-P P _ _ _ (keeps id x s.uuids f h) h))
    ]
  ]

  take_value-entry :
      (up : Bool) (value uuid : String) (s : Service r j)
      → takes_response r j (lookup uuid s.uuids) ≡ true
      → lookup uuid (take_value r j up value s).uuids
        ≡ entry (lookup uuid s.uuids) (answer_to uuid value)
  unfolding take_value
  take_value-entry up value uuid s h = elim (Option-cases (j.loads value)) [
    | inl e ↦ rw (e, take_value, answer_to) refl
    | inr (x, e) ↦ rw (e, take_value, answer_to) (take_message-entry up x uuid s h)
  ]

  or_later-entry :
      (slot : Option (Slot Doc)) (now later : Option Doc)
      → entry (entry slot now) later ≡ entry slot (or_later now later)
  or_later-entry slot now none = refl
  or_later-entry slot now (some x) = refl

  -- A batch and a waiting entry: the entry ends with the last response that the batch gives.
  pub process_messages-entry :
      (up : Bool) (conns : List ConnectionState) (uuid : String) (messages : List Message)
      (s : Service r j)
      → takes_response r j (lookup uuid s.uuids) ≡ true
      → lookup uuid (process_messages r j up conns messages s).uuids
        ≡ entry (lookup uuid s.uuids) (last_answer uuid messages)
  unfolding process_messages last_answer
  process_messages-entry up conns uuid [] s h = ap (lookup uuid) (check-uuids conns s)
  process_messages-entry up conns uuid (no_message ∷ l) s h = ap (lookup uuid) (check-uuids conns s)
  process_messages-entry up conns uuid (out_of_range ∷ l) s h = refl
  process_messages-entry up conns uuid (message value ∷ l) s h =
      let now = take_value-entry up value uuid s h in
      process_messages-entry up conns uuid l (take_value r j up value s) (
        subst (λ o. takes_response r j o ≡ true) (sym now)
          (takes_entry (lookup uuid s.uuids) (answer_to uuid value) h))
      ∙ ap (λ o. entry o (last_answer uuid l)) now
      ∙ or_later-entry (lookup uuid s.uuids) (answer_to uuid value) (last_answer uuid l)

  -- a property of the entries that a response keeps holds after a batch
  pub process_messages-uuids {ℓ} :
      (P : Dict (Slot Doc) → Type ℓ)
      → ((id : String) (x : Doc) (d : Dict (Slot Doc))
          → j.uuid x ≡ some id
          → P d
          → P (insert id (response x) d))
      → (up : Bool) (conns : List ConnectionState) (messages : List Message) (s : Service r j)
      → P s.uuids
      → P (process_messages r j up conns messages s).uuids
  unfolding process_messages
  process_messages-uuids P keeps up conns [] s h = subst P (sym (check-uuids conns s)) h
  process_messages-uuids P keeps up conns (no_message ∷ l) s h =
      subst P (sym (check-uuids conns s)) h
  process_messages-uuids P keeps up conns (out_of_range ∷ l) s h = h
  process_messages-uuids P keeps up conns (message value ∷ l) s h =
      process_messages-uuids P keeps up conns l (take_value r j up value s)
        (take_value-uuids P keeps up value s h)

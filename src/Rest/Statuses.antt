-- ===== src/Rest/Statuses.antt =====
-- What the clients of the REST service get (rest/rest_service.py: the decorators and the routes).
use scrapy_cluster.Prelude.{
  ℕ, ◌+◌, ◌-◌, ◌/◌, ◌<◌, leb, String, ◌≡◌, refl, ap, subst, Bool, true, false, ◌⊎◌, inl, inr,
  Option, none, some, arith, is_some, insert, Bool-cases, Option-cases, if-P, ◌==◌, ◌||◌,
}
use scrapy_cluster.Redis.{Redis}
use scrapy_cluster.Throttle.{second}
use scrapy_cluster.Rest.{
  Json, waiting, Payload, Returned, plain, coded, index_data, raised, Answer, answer, node_answer,
  Body, bad_request, null, body, Ret, create_ret_object, failure, error_catch, validate_json,
  after_validation, validate_schema, Service,
}
use scrapy_cluster.Rest.Routes.{
  finish?, after_send, after_kafka, feed_to_kafka, Send, confirmed, unconfirmed, send_raises, await,
  catch_feed, feed_endpoint, no_redis, poll_loaded, poll_reply, Outcome, timed_out, got, missing,
  finish, feed, success, no_kafka, poll_body, poll_route, poll_endpoint,
}
use scrapy_cluster.Rest.Waiting.{wait_ends}

module _ {D : Type 0} where
  -- a success has the code 200 and no error; a failure has an error, no data, and the code 400, 404
  -- or 500
  abbrev pub IsSuccess : Ret D → ℕ → Type 0
  IsSuccess ret code = (ret.status ≡ "SUCCESS") × (ret.error ≡ none) × (code ≡ 200)

  abbrev pub IsFailure : Ret D → ℕ → Type 0
  IsFailure ret code =
      (ret.status ≡ "FAILURE")
      × (is_some ret.error ≡ true)
      × (ret.payload ≡ none)
      × ((code == 400 || (code == 404 || code == 500)) ≡ true)

  abbrev pub IsConsistent : Answer D → Type 0
  IsConsistent (answer ret code) = IsSuccess ret code ⊎ IsFailure ret code
  IsConsistent (node_answer p code) = code ≡ 200

  -- what a route may return
  abbrev pub IsProper : Returned D → Type 0
  IsProper (plain ret) = IsSuccess ret 200
  IsProper (coded ret code) = IsFailure ret code
  IsProper (index_data p) = Unit
  IsProper raised = Unit

  failure-IsFailure :
      (message : String) (code : ℕ)
      → (code == 400 || (code == 404 || code == 500)) ≡ true
      → IsFailure (failure message) code
  unfolding create_ret_object
  failure-IsFailure message code h = (refl, refl, refl, h)

  error_catch-IsConsistent : (x : Returned D) → IsProper x → IsConsistent (error_catch x)
  unfolding error_catch
  error_catch-IsConsistent (plain ret) h = inl h
  error_catch-IsConsistent (coded ret code) h = inr h
  error_catch-IsConsistent (index_data p) h = refl
  error_catch-IsConsistent raised h = inr (failure-IsFailure _ 500 refl)

  module _ {S : Type 0} (f : D → S → Answer D × S)
      (h : (x : D) (s : S) → IsConsistent (f x s).0) where
    after_validation-IsConsistent :
        (v : String ⊎ D) (s : S) → IsConsistent (after_validation f v s).0
    unfolding after_validation create_ret_object
    after_validation-IsConsistent (inl message) s = inr (refl, refl, refl, refl)
    after_validation-IsConsistent (inr x) s = h x s

  -- what holds of the refusal and of what the route results in holds of the decorated route
  validate_json-keeps :
      {S R : Type 0} (P : S → R → Type 0) (reply : Answer D × S → R) (f : D → S → R)
      → ((s : S) → P s (reply (answer (failure "The payload must be valid JSON.") 400, s)))
      → ((x : D) (s : S) → P s (f x s))
      → (b : Body D) (s : S) → P s (validate_json reply f b s)
  unfolding validate_json
  validate_json-keeps P reply f refused h bad_request s = refused s
  validate_json-keeps P reply f refused h null s = refused s
  validate_json-keeps P reply f refused h (body x) s = h x s

  -- an answer of feed: consistent, and a success only where `good` holds
  abbrev pub IsFeedAnswer : Type 0 → Answer D → Type 0
  IsFeedAnswer good (answer ret code) = (IsSuccess ret code × good) ⊎ IsFailure ret code
  IsFeedAnswer good (node_answer p code) = ⊥

  abbrev IsFed : Type 0 → Returned D → Type 0
  IsFed good (plain ret) = IsSuccess ret 200 × good
  IsFed good (coded ret code) = IsFailure ret code
  IsFed good (index_data p) = ⊥
  IsFed good raised = Unit

  error_catch-IsFeedAnswer :
      (good : Type 0) (x : Returned D) → IsFed good x → IsFeedAnswer good (error_catch x)
  unfolding error_catch
  error_catch-IsFeedAnswer good (plain ret) h = inl h
  error_catch-IsFeedAnswer good (coded ret code) h = inr h
  error_catch-IsFeedAnswer good (index_data p) h = absurd h
  error_catch-IsFeedAnswer good raised h = inr (failure-IsFailure _ 500 refl)

module _ (r : Redis) (j : Json) where
  open j use {Doc}

  success-IsProper : (p : Option (Payload Doc)) → IsProper (success r j p)
  unfolding create_ret_object
  success-IsProper p = (refl, refl, refl)

  abbrev Proper : Returned Doc × Service r j → Type 0
  Proper p = IsProper p.0

  poll_loaded-IsProper :
      (delete_up : Bool) (id : String) (o : Option Doc) (s : Service r j)
      → IsProper (poll_loaded r j delete_up id o s).0
  unfolding poll_loaded
  poll_loaded-IsProper delete_up id none s =
      if-P Proper delete_up _ _ (failure-IsFailure _ 500 refl) tt
  poll_loaded-IsProper delete_up id (some x) s =
      if-P Proper delete_up _ _ (success-IsProper _) (failure-IsFailure _ 500 refl)

  poll_reply-IsProper :
      (delete_up : Bool) (id : String) (o : Option String) (s : Service r j)
      → IsProper (poll_reply r j delete_up id o s).0
  unfolding poll_reply
  poll_reply-IsProper delete_up id none s = failure-IsFailure _ 404 refl
  poll_reply-IsProper delete_up id (some value) s =
      poll_loaded-IsProper delete_up id (j.loads value) s

  poll_body-IsProper :
      (get_up delete_up : Bool) (id : String) (s : Service r j)
      → IsProper (poll_body r j get_up delete_up id s).0
  unfolding poll_body
  poll_body-IsProper get_up delete_up id s =
      if-P Proper s.redis_connected _ _
        (if-P Proper get_up _ _ (poll_reply-IsProper delete_up id _ s)
          (failure-IsFailure _ 500 refl))
        (failure-IsFailure _ 500 refl)

  poll_route-IsConsistent :
      (get_up delete_up : Bool) (x : Doc) (s : Service r j)
      → IsConsistent (poll_route r j get_up delete_up x s).0
  unfolding poll_route
  poll_route-IsConsistent get_up delete_up x s = elim (Option-cases (j.poll_id x)) [
    | inl e ↦ elim (Bool-cases s.redis_connected) [
      | inl up ↦ simp (e, poll_route, up) (error_catch-IsConsistent raised tt)
      | inr down ↦
          simp (e, poll_route, down)
            (error_catch-IsConsistent (no_redis r j) (failure-IsFailure _ 500 refl))
    ]
    | inr (id, e) ↦
        rw (e, poll_route)
          (error_catch-IsConsistent (poll_body r j get_up delete_up id s).0
            (poll_body-IsProper get_up delete_up id s))
  ]

  -- Whatever the body of the request, the validator, the state and the calls of Redis: `poll`
  -- answers with a success of code 200 and no error, or with a failure that has an error, no data and
  -- the code 400, 404 or 500.
  pub poll_endpoint-IsConsistent :
      (validate : Doc → String ⊎ Doc) (get_up delete_up : Bool) (b : Body Doc) (s : Service r j)
      → IsConsistent (poll_endpoint r j validate get_up delete_up b s).0
  unfolding poll_endpoint validate_schema
  poll_endpoint-IsConsistent validate get_up delete_up =
      validate_json-keeps (λ s p. IsConsistent p.0) (λ a. a) _
        (λ s. inr (failure-IsFailure _ 400 refl))
        (λ x s.
          after_validation-IsConsistent _ (poll_route-IsConsistent get_up delete_up) (validate x) s)

  success-IsFed : (good : Type 0) (p : Option (Payload Doc)) → good → IsFed good (success r j p)
  success-IsFed good p g = (success-IsProper p, g)

  finish-IsFed :
      (good : Type 0) (uuid : String) (o : Outcome Doc) (s : Service r j)
      → good
      → IsFed good (finish r j uuid (o, s)).0
  unfolding finish
  finish-IsFed good uuid timed_out s g = success-IsFed good _ g
  finish-IsFed good uuid (got slot) s g = success-IsFed good _ g
  finish-IsFed good uuid missing s g = tt

  module _ (limit start : ℕ) (clock : ℕ → ℕ) (meanwhile : Service r j → Service r j)
      (others : ℕ → Service r j → Service r j) where
    abbrev Ends : Type 0 → Option (Returned Doc × Service r j) → Type 0
    Ends good o = (out : Returned Doc × Service r j) × (o ≡ some out) × IsFed good out.0

    no_kafka-IsFailure : IsFailure (failure {D = Doc} "Unable to connect to Kafka") 500
    no_kafka-IsFailure = failure-IsFailure "Unable to connect to Kafka" 500 refl

    module _ (n fuel : ℕ) (late : leb ((clock n - start) / second) limit ≡ false)
        (enough : n < fuel) where
      await-Ends :
          (good : Type 0) (sent : Send) (uuid : String) (s : Service r j)
          → good
          → Ends good (await r j limit fuel start clock sent meanwhile others uuid true s)
      unfolding await finish?
      await-Ends good sent uuid s g =
          let late' : leb ((clock (0 + n) - start) / second) limit ≡ false =
            subst (λ k. leb ((clock k - start) / second) limit ≡ false) (omega arith) late in
          let (out, ends) =
            wait_ends r j limit start clock others uuid n 0
              (record s { uuids = insert uuid waiting s.uuids }) fuel late' enough in
          (finish r j uuid out, ap (finish? r j uuid) ends, finish-IsFed good uuid out.0 out.1 g)

      after_send-Ends :
          (good : Type 0) (sent : Send) (uuid : Option String) (s : Service r j)
          → good
          → Ends good (after_send r j limit fuel start clock sent meanwhile others uuid true s)
      unfolding after_send
      after_send-Ends good sent none s g = ((success r j none, s), refl, success-IsFed good none g)
      after_send-Ends good sent (some uuid) s g = await-Ends good sent uuid s g

      after_lost-Ends :
          (good : Type 0) (sent : Send) (uuid : Option String) (s : Service r j)
          → Ends good (after_send r j limit fuel start clock sent meanwhile others uuid false s)
      unfolding after_send await
      after_lost-Ends good sent none s = ((no_kafka r j, _), refl, no_kafka-IsFailure)
      after_lost-Ends good sent (some uuid) s = ((no_kafka r j, _), refl, no_kafka-IsFailure)

      -- where the service is connected, a success needs the confirmed send
      after_kafka-Ends :
          (sent : Send) (up : Bool) (uuid : Option String) (s : Service r j)
          → up ≡ true
          → Ends ((sent ≡ confirmed) × (up ≡ true)) (
              after_kafka r j limit fuel start clock sent meanwhile others uuid
                (feed_to_kafka r j sent meanwhile s))
      unfolding after_kafka feed_to_kafka
      after_kafka-Ends confirmed up uuid s h = after_send-Ends _ confirmed uuid _ (refl, h)
      after_kafka-Ends unconfirmed up uuid s h = after_lost-Ends _ unconfirmed uuid _
      after_kafka-Ends send_raises up uuid s h = ((raised, meanwhile s), refl, tt)

      feed-Ends :
          (sent : Send) (x : Doc) (s : Service r j)
          → Ends
              ((sent ≡ confirmed) × (s.kafka_connected ≡ true))
              (feed r j limit fuel start clock sent meanwhile others x s)
      unfolding feed
      feed-Ends sent x s = elim (Bool-cases s.kafka_connected) [
        | inl up ↦ rw (feed, up) (after_kafka-Ends sent true (j.uuid x) _ refl)
        | inr down ↦ rw (feed, down) ((no_kafka r j, _), refl, no_kafka-IsFailure)
      ]

      abbrev Answered : Send → Service r j → Option (Answer Doc × Service r j) → Type 0
      Answered sent s o =
          (out : Answer Doc × Service r j) × (o ≡ some out)
          × IsFeedAnswer ((sent ≡ confirmed) × (s.kafka_connected ≡ true)) out.0

      feed-Answered :
          (sent : Send) (x : Doc) (s : Service r j)
          → Answered sent s
              (catch_feed r j (feed r j limit fuel start clock sent meanwhile others x s))
      unfolding catch_feed
      feed-Answered sent x s =
          let (out, ends, fed) = feed-Ends sent x s in
          (
            (error_catch out.0, out.1),
            ap (catch_feed r j) ends,
            error_catch-IsFeedAnswer _ out.0 fed,
          )

      -- feed of a body that is a dict, null or no JSON, with a fuel that covers the turns until a look
      -- at the time that is too late, whatever becomes of the send, the producer's exceptions
      -- included, and whatever the other threads do: it returns, and the client gets a success of
      -- code 200 without an error, or a failure with an error, no data and the code 400, 404 or 500;
      -- a success only where the service was connected and Kafka has confirmed the item in time.
      pub feed_endpoint-IsFeedAnswer :
          (sent : Send) (b : Body Doc) (s : Service r j)
          → (out : Answer Doc × Service r j) × (feed_endpoint r j limit fuel start clock sent
                meanwhile others b s
              ≡ some out)
            × IsFeedAnswer ((sent ≡ confirmed) × (s.kafka_connected ≡ true)) out.0
      unfolding feed_endpoint
      feed_endpoint-IsFeedAnswer sent b s =
          validate_json-keeps (Answered sent) some _
            (λ t. (_, refl, inr (failure-IsFailure "The payload must be valid JSON." 400 refl)))
            (feed-Answered sent) b s

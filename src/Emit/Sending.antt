-- ===== src/Emit/Sending.antt =====
-- What the Kafka pipeline logs of its sends (crawler/crawling/pipelines.py: _kafka_success,
-- _kafka_failure and process_item).
use scrapy_cluster.Prelude.{
  String, ◌≡◌, refl, ◌∙◌, true, false, inl, inr, Option, none, some, List, [], ◌∷◌, str_eq, eq_iff,
  is_some, lookup, insert, lookup-insert, lookup-erase_ne, Bool-cases,
}
use scrapy_cluster.Statistics.Queues.{and_then}
use scrapy_cluster.Emit.{
  Val, text, flag, Datum, del, del_all, clean_item, SendEnd, delivered, failed, callback, callbacks,
}

-- the extras tell of this exception, if there are extras
abbrev pub Tells : String → Option Datum → Type 0
Tells e none = Unit
Tells e (some extras) = lookup "exception" extras ≡ some (text e)

and_then-Tells :
    (e : String) (o : Option Datum) (f : Datum → Option Datum)
    → Tells e o
    → ((d : Datum) → lookup "exception" d ≡ some (text e) → Tells e (f d))
    → Tells e (and_then o f)
and_then-Tells e none f h g = tt
and_then-Tells e (some d) f h g = g d h

insert-Tells :
    (e k : String) (v : Val) (d : Datum)
    → str_eq k "exception" ≡ false
    → lookup "exception" d ≡ some (text e)
    → lookup "exception" (insert k v d) ≡ some (text e)
insert-Tells e k v d other h = lookup-insert k "exception" v d ∙ rw other h

del-Tells :
    (e k : String) (d : Datum)
    → str_eq k "exception" ≡ false
    → lookup "exception" d ≡ some (text e)
    → Tells e (del k d)
del-Tells e k d other h = elim (Bool-cases (is_some (lookup k d))) [
  | inl there ↦
      rw there
        (lookup-erase_ne k "exception" d (λ same. cc (other, (eq_iff k "exception").1 same)) ∙ h)
  | inr away ↦ rw away tt
]

-- the names differ from "exception"
abbrev Others : List String → Type 0
Others [] = Unit
Others (k ∷ ks) = (str_eq k "exception" ≡ false) × Others ks

del_all-Tells :
    (e : String) (ks : List String) (d : Datum)
    → Others ks
    → lookup "exception" d ≡ some (text e)
    → Tells e (del_all ks d)
del_all-Tells e [] d others h = h
del_all-Tells e (k ∷ ks) d others h =
    and_then-Tells e (del k d) (del_all ks) (del-Tells e k d others.0 h)
      (λ d' h'. del_all-Tells e ks d' others.1 h')

clean_item-Tells :
    (e logger : String) (d : Datum)
    → lookup "exception" d ≡ some (text e)
    → Tells e (clean_item logger d)
unfolding clean_item
clean_item-Tells e logger d h =
    and_then-Tells e _ _
      (del_all-Tells e
        ("body" ∷ "links" ∷ "response_headers" ∷ "request_headers" ∷ "status_code" ∷ "status_msg"
          ∷ [])
        d (refl, (refl, (refl, (refl, (refl, (refl, tt)))))) h)
      (λ copy h'.
        insert-Tells e "logger" (text logger) (insert "action" (text "ack") copy) refl
          (insert-Tells e "action" (text "ack") copy refl h'))

-- every log from here on tells of this exception
abbrev pub AllTell : String → List (Option Datum) → Type 0
AllTell e [] = Unit
AllTell e (o ∷ l) = Tells e o × AllTell e l

-- no send fails
abbrev pub AllDelivered : List SendEnd → Type 0
AllDelivered [] = Unit
AllDelivered (delivered ∷ ends) = AllDelivered ends
AllDelivered (failed e ∷ ends) = ⊥

callbacks-delivered :
    (e logger spiderid : String) (n : List SendEnd) (d : Datum)
    → AllDelivered n
    → lookup "exception" d ≡ some (text e)
    → AllTell e (callbacks logger spiderid n d)
unfolding callbacks callback
callbacks-delivered e logger spiderid [] d all h = tt
callbacks-delivered e logger spiderid (delivered ∷ ends) d all h =
    let h' = insert-Tells e "success" (flag true) d refl h in
    (
      and_then-Tells e (clean_item logger (insert "success" (flag true) d)) _
          (clean_item-Tells e logger _ h')
          (λ copy k. insert-Tells e "spiderid" (text spiderid) copy refl k),
      callbacks-delivered e logger spiderid ends _ all h',
    )
callbacks-delivered e logger spiderid (failed x ∷ ends) d all h = absurd all

-- The sends of an item share its datum: after one of them has failed, each later log of a send that
-- was delivered tells of the exception of the failed one.
pub callbacks-AllTell :
    (e logger spiderid : String) (ends : List SendEnd) (d : Datum)
    → AllDelivered ends
    → AllTell e (callbacks logger spiderid (failed e ∷ ends) d)
unfolding callbacks callback
callbacks-AllTell e logger spiderid ends d all =
    let item = insert "exception" (text e) (insert "success" (flag false) d) in
    let here : lookup "exception" item ≡ some (text e) =
      lookup-insert "exception" "exception" (text e) (insert "success" (flag false) d) in
    let shared = insert-Tells e "spiderid" (text spiderid) item refl here in
    (clean_item-Tells e logger _ shared, callbacks-delivered e logger spiderid ends _ all shared)

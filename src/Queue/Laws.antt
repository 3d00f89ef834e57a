-- ===== src/Queue/Laws.antt =====
-- An encoded item is decoded to itself and is never the empty text (utils/scutils/redis_queue.py),
-- and what RPOP takes from a list.
use scrapy_cluster.Prelude.{
  String, ◌≡◌, refl, ap, ◌≢◌, inl, inr, some, List, [], ◌∷◌, ◌++◌, arith, str_eq, eq_iff,
  Bool-cases,
}
use scrapy_cluster.Prelude.Int.{ℤ}
use scrapy_cluster.Redis.Values.{unsnoc, last?, all_but_last}
use scrapy_cluster.Queue.Codec.{Encoding}
use scrapy_cluster.Queue.{item, encode_item, decode_item, decode_data, decode_first}

module _ {A : Type 0} (e : Encoding A) where
  pub decode_item-encode_item : (a : A) → decode_item e (encode_item e a) ≡ some a
  unfolding decode_item encode_item
  decode_item-encode_item a = elim (Bool-cases (str_eq e.name "pickle")) [
    | inl pickle ↦ rw pickle (rw (e.encode-decode_latin1 a) (e.loads_bytes-dumps_bytes a))
    | inr other ↦ rw other (e.loads-dumps a)
  ]

  pub encode_item-ne-nil : (a : A) → encode_item e a ≢ ""
  unfolding encode_item
  encode_item-ne-nil a = elim (Bool-cases (str_eq e.name "pickle")) [
    | inl pickle ↦ rw pickle (e.decode_latin1-dumps_bytes-ne-nil a)
    | inr other ↦ rw other (e.dumps-ne-nil a)
  ]

  pub decode_data-encode_item : (a : A) → decode_data e (some (encode_item e a)) ≡ item a
  unfolding decode_data
  decode_data-encode_item a =
      ground (arith, decode_item-encode_item a, encode_item-ne-nil a, eq_iff (encode_item e a) "")

  pub decode_first-encode_item :
      (a : A) (s : ℤ) → decode_first e (some (encode_item e a, s)) ≡ item a
  unfolding decode_first
  decode_first-encode_item a s = rw decode_item-encode_item

  -- items with one encoding are one item
  pub encode_item_inj : (a b : A) → encode_item e a ≡ encode_item e b → a ≡ b
  encode_item_inj a b h = cc (decode_item-encode_item a, decode_item-encode_item b)

unsnoc-snoc : (y x : String) (l : List String) → unsnoc y (l ++ x ∷ []) ≡ (x, y ∷ l)
unsnoc-snoc y x [] = refl
unsnoc-snoc y x (z ∷ l) = rw (unsnoc-snoc z x l)

pub last?-snoc : (x : String) (l : List String) → last? (l ++ x ∷ []) ≡ some x
last?-snoc x [] = refl
last?-snoc x (y ∷ l) = rw (unsnoc-snoc y x l)

pub all_but_last-snoc : (x : String) (l : List String) → all_but_last (l ++ x ∷ []) ≡ l
all_but_last-snoc x [] = refl
all_but_last-snoc x (y ∷ l) = ap (λ (p : String × List String). p.1) (unsnoc-snoc y x l)

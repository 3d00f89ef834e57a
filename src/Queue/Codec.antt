-- ===== src/Queue/Codec.antt =====
-- The `encoding` module that a queue of utils/scutils/redis_queue.py is given (pickle, ujson, json):
-- a parameter, with the round trip that the queues rely on. A text that no item has is refused.
use scrapy_cluster.Prelude.{ℕ, String, ◌≡◌, ◌≢◌, Option, some, List}

pub record Encoding (A : Type 0) : Type 0 where
  -- `encoding.__name__`
  pub name : String
  pub dumps : A → String
  pub loads : String → Option A
  -- pickle.dumps(item, protocol=-1) and pickle.loads, over bytes
  pub dumps_bytes : A → List ℕ
  pub loads_bytes : List ℕ → Option A
  -- bytes.decode('latin1') and str.encode('latin1')
  pub decode_latin1 : List ℕ → String
  pub encode_latin1 : String → List ℕ
  pub loads-dumps : (a : A) → loads (dumps a) ≡ some a
  pub dumps-ne-nil : (a : A) → dumps a ≢ ""
  pub loads_bytes-dumps_bytes : (a : A) → loads_bytes (dumps_bytes a) ≡ some a
  pub encode-decode_latin1 : (a : A) → encode_latin1 (decode_latin1 (dumps_bytes a)) ≡ dumps_bytes a
  pub decode_latin1-dumps_bytes-ne-nil : (a : A) → decode_latin1 (dumps_bytes a) ≢ ""

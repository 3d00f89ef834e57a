-- ===== src/Migrate/Tests.antt =====
-- Concrete migrations (migrate.py): items are numbers.
use scrapy_cluster.Prelude.{
  ℕ, String, ◌≡◌, refl, ap, Bool, true, false, some, List, [], ◌∷◌, if◌then◌else◌,
}
use scrapy_cluster.Prelude.Int.{pos}
use scrapy_cluster.Prelude.Marks.{marks, unmark, unmark-marks}
use scrapy_cluster.Redis.Memory.{memory, empty}
use scrapy_cluster.Migrate.{Items, one, two, output, encode_queue, cache, migrate}
use scrapy_cluster.Migrate.Kept.{IsKept, cluster_of, encode_queue-Kept}
use scrapy_cluster.Migrate.Servers.{IsWithin, migrate-same}

abbrev numbers : Items ℕ
numbers = record {
  loads = λ s. some (unmark s);
  pickled = marks;
  dumps = marks;
  url = λ n. "http://a.com";
  spiderid = λ n. "link";
  priority = λ n. pos n;
}

abbrev of_url : String → String
of_url url = "a"

abbrev never : String → Bool
never question = false

abbrev queue : String
queue = "link:a.com:queue"

abbrev db : memory.Db
db = memory.zadd queue (pos 5) "11" empty

encode_queue-Kept_example :
    IsKept memory numbers of_url of_url never
      (λ s. some (unmark s))
      (λ n. ap some (unmark-marks n))
      queue
      (cache memory numbers of_url of_url never (("11", pos 5) ∷ []))
      db
      (output memory (
        cluster_of memory numbers of_url of_url never
          (λ s. some (unmark s))
          (λ n. ap some (unmark-marks n))
          (encode_queue memory numbers of_url of_url never true queue (one db))))
encode_queue-Kept_example =
    encode_queue-Kept memory numbers of_url of_url never (λ s. some (unmark s))
      (λ n. ap some (unmark-marks n)) true queue "link" "a.com" "queue" (one db)
      (("11", pos 5) ∷ []) (("11", pos 5) ∷ []) refl refl refl

abbrev queue_keys : memory.Db → List String
queue_keys d = if memory.exists queue d then queue ∷ [] else []

abbrev old_keys : memory.Db → List String
old_keys d = "link:queue" ∷ []

abbrev new_keys : String → memory.Db → List String
new_keys spider d = queue_keys d

abbrev old : memory.Db
old = memory.zadd "link:queue" (pos 5) "11" empty

no_queue_keys :
    (d : memory.Db)
    → IsWithin memory numbers of_url of_url never old_keys queue_keys new_keys old d
    → queue_keys d ≡ []
no_queue_keys d within = rw (memory.exists_lem queue d, within queue refl) refl

migrate-same_example :
    migrate memory numbers of_url of_url never old_keys queue_keys new_keys 10 12 false
      (two old empty)
    ≡ migrate memory numbers of_url of_url never old_keys queue_keys new_keys 10 11 false
        (two old empty)
migrate-same_example =
    migrate-same memory numbers of_url of_url never old_keys queue_keys new_keys false old empty
      no_queue_keys

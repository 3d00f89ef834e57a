-- ===== src/Queue/Tests.antt =====
-- Concrete runs of the queues of utils/scutils/redis_queue.py.
use scrapy_cluster.Prelude.{ℕ, ◌≡◌, refl, some, List, [], ◌∷◌, arith}
use scrapy_cluster.Prelude.Int.{pos, negsuc, neg}
use scrapy_cluster.Redis.Memory.{memory, empty, Db}
use scrapy_cluster.Redis.Values.{Ranked, as_zset, remove}
use scrapy_cluster.Queue.{
  item, nothing, encode_item, decode_item, decode_data, list_push, queue_pop, priority_push,
  priority_pop,
}
use scrapy_cluster.Queue.Tally.{tally}
use scrapy_cluster.Queue.Refinement.{
  Call, push, pop, run, enqueue, take_first, alone, HoldsQueue, run-queue,
}
use scrapy_cluster.Queue.Priority.{HoldsRanked, pop-push_highest}

abbrev calls : List (Call ℕ)
calls = push 3 ∷ push 1 ∷ pop 0 ∷ pop 5 ∷ pop 0 ∷ push 7 ∷ []

queue_replies :
    (run (list_push tally memory "q") (λ n. queue_pop tally memory "q" n alone) calls empty).0
    ≡ item 3 ∷ item 1 ∷ nothing ∷ []
unfolding run list_push queue_pop decode_data encode_item decode_item
queue_replies = refl

run-queue_example :
    ((run (list_push tally memory "q") (λ n. queue_pop tally memory "q" n alone) calls empty).0
      ≡ (run enqueue take_first calls []).0)
    × HoldsQueue tally memory "q"
        (run (list_push tally memory "q") (λ n. queue_pop tally memory "q" n alone) calls empty).1
        (run enqueue take_first calls []).1
run-queue_example = run-queue tally memory "q" calls empty [] refl

-- Item 5 at priority 10 and item 2 at priority -3.
abbrev queued : Db
queued =
    priority_push tally memory "q" 5 (pos 10) (priority_push tally memory "q" 2 (negsuc 2) empty)

abbrev ranks : Ranked
ranks = (encode_item tally 5, neg (pos 10)) ∷ (encode_item tally 2, neg (negsuc 2)) ∷ []

queued-Ranked : HoldsRanked tally memory "q" queued ranks
unfolding priority_push encode_item neg
queued-Ranked = (refl, omega arith)

pop-push_highest_example :
    let (reply, d') =
      priority_pop tally memory "q" (priority_push tally memory "q" 2 (pos 20) queued) in
    (reply ≡ item 2) × (as_zset (memory.value d' "q") ≡ some (remove (encode_item tally 2) ranks))
unfolding neg
pop-push_highest_example =
    pop-push_highest tally memory "q" 2 (pos 20) queued ranks (queued-Ranked.0) (refl, (refl, tt))

-- ===== src/Redis/Values.antt =====
-- What a Redis key can hold, in the documentation's terms. The rank of a sorted set's members goes
-- by score, and by the member where the scores are equal.
use Prim.Native.Nat.{Ordering}
use Prim.Native.String.{compare}
use scrapy_cluster.Prelude.{
  String, Bool, true, false, ◌&&◌, ◌||◌, Option, none, some, List, [], ◌∷◌, str_eq, contains,
  if◌then◌else◌,
}
use scrapy_cluster.Prelude.Int.{ℤ, ltb_ℤ, leb_ℤ}

abbrev pub Ranked : Type 0
Ranked = List (String × ℤ)

-- an absent key reads as the empty list, set or sorted set
pub data Value : Type 0 where
  text : String → Value
  list : List String → Value
  set : List String → Value
  zset : Ranked → Value

abbrev pub as_list : Option Value → Option (List String)
as_list none = some []
as_list (some (list l)) = some l
as_list (some _) = none

abbrev pub as_set : Option Value → Option (List String)
as_set none = some []
as_set (some (set l)) = some l
as_set (some _) = none

abbrev pub as_zset : Option Value → Option Ranked
as_zset none = some []
as_zset (some (zset l)) = some l
as_zset (some _) = none

abbrev pub text_lt : String → String → Bool
text_lt a b = elim (compare a b) [ Ordering.lt ↦ true | _ ↦ false ]

abbrev pub ranks_before : String → ℤ → String → ℤ → Bool
ranks_before m s n t = ltb_ℤ s t || (leb_ℤ s t && text_lt m n)

abbrev pub remove : String → Ranked → Ranked
remove m [] = []
remove m ((n, t) ∷ l) = if str_eq n m then remove m l else (n, t) ∷ remove m l

abbrev pub place : String → ℤ → Ranked → Ranked
place m s [] = (m, s) ∷ []
place m s ((n, t) ∷ l) = if ranks_before m s n t then (m, s) ∷ (n, t) ∷ l else (n, t) ∷ place m s l

-- ZADD of one member: a member that is there moves to its new score
abbrev pub add : String → ℤ → Ranked → Ranked
add m s l = place m s (remove m l)

-- ZREMRANGEBYSCORE key -inf bound
abbrev pub above : ℤ → Ranked → Ranked
above bound [] = []
above bound ((n, t) ∷ l) = if leb_ℤ t bound then above bound l else (n, t) ∷ above bound l

-- ZREMRANGEBYSCORE key bound inf
abbrev pub below : ℤ → Ranked → Ranked
below bound [] = []
below bound ((n, t) ∷ l) = if leb_ℤ bound t then below bound l else (n, t) ∷ below bound l

-- SADD of one member
abbrev pub add_member : String → List String → List String
add_member m l = if contains m l then l else m ∷ l

-- RPOP: the last element, and what is before it
abbrev pub unsnoc : String → List String → String × List String
unsnoc x [] = (x, [])
unsnoc x (y ∷ l) = let (z, rest) = unsnoc y l in (z, x ∷ rest)

abbrev pub last? : List String → Option String
last? [] = none
last? (x ∷ l) = some (unsnoc x l).0

abbrev pub all_but_last : List String → List String
all_but_last [] = []
all_but_last (x ∷ l) = (unsnoc x l).1

-- ===== src/Queue/Ranks.antt =====
-- The ranked list of a sorted set under ZADD, ZREM and ZREMRANGEBYSCORE: it stays ranked, and each
-- operation's effect on the score of every member.
use scrapy_cluster.Prelude.{
  String, ◌≡◌, refl, Bool-cases, true, false, inl, inr, none, some, [], ◌∷◌, arith, str_eq, eq_iff,
  All, lookup, if◌then◌else◌,
}
use scrapy_cluster.Prelude.Int.{ℤ, ◌≤ℤ◌, ltb_ℤ}
use scrapy_cluster.Redis.Values.{Ranked, ranks_before, remove, place, add}

-- No member has a higher score than one behind it.
abbrev pub IsRanked : Ranked → Type 0
IsRanked [] = Unit
IsRanked ((m, s) ∷ l) = All (λ (x : String × ℤ). s ≤ℤ x.1) l × IsRanked l

All-remove : (P : String × ℤ → Type 0) (m : String) (l : Ranked) → All P l → All P (remove m l)
All-remove P m [] h = tt
All-remove P m ((n, t) ∷ l) h = elim (Bool-cases (str_eq n m)) [
  | inl same ↦ rw same (All-remove P m l h.1)
  | inr other ↦ rw other (h.0, All-remove P m l h.1)
]

All-place :
    (P : String × ℤ → Type 0) (m : String) (s : ℤ) (l : Ranked)
    → P (m, s)
    → All P l
    → All P (place m s l)
All-place P m s [] p h = (p, tt)
All-place P m s ((n, t) ∷ l) p h = elim (Bool-cases (ranks_before m s n t)) [
  | inl first ↦ rw first (p, h)
  | inr later ↦ rw later (h.0, All-place P m s l p h.1)
]

All-above_score :
    (s t : ℤ) (l : Ranked)
    → s ≤ℤ t
    → All (λ (x : String × ℤ). t ≤ℤ x.1) l
    → All (λ (x : String × ℤ). s ≤ℤ x.1) l
All-above_score s t [] h a = tt
All-above_score s t ((n, u) ∷ l) h a = (omega arith, All-above_score s t l h a.1)

IsRanked-remove : (m : String) (l : Ranked) → IsRanked l → IsRanked (remove m l)
IsRanked-remove m [] h = tt
IsRanked-remove m ((n, t) ∷ l) h = elim (Bool-cases (str_eq n m)) [
  | inl same ↦ rw same (IsRanked-remove m l h.1)
  | inr other ↦ rw other (All-remove _ m l h.0, IsRanked-remove m l h.1)
]

le_of_ranks_before :
    (m : String) (s : ℤ) (n : String) (t : ℤ) → ranks_before m s n t ≡ true → s ≤ℤ t
le_of_ranks_before m s n t h = ground arith

le_of_not_ranks_before :
    (m : String) (s : ℤ) (n : String) (t : ℤ) → ranks_before m s n t ≡ false → t ≤ℤ s
le_of_not_ranks_before m s n t h = ground arith

IsRanked-place : (m : String) (s : ℤ) (l : Ranked) → IsRanked l → IsRanked (place m s l)
IsRanked-place m s [] h = (tt, tt)
IsRanked-place m s ((n, t) ∷ l) h = elim (Bool-cases (ranks_before m s n t)) [
  | inl first ↦
      let le = le_of_ranks_before m s n t first in rw first ((le, All-above_score s t l le h.0), h)
  | inr later ↦
      rw later
        (All-place _ m s l (le_of_not_ranks_before m s n t later) h.0, IsRanked-place m s l h.1)
]

pub IsRanked-add : (m : String) (s : ℤ) (l : Ranked) → IsRanked l → IsRanked (add m s l)
IsRanked-add m s l h = IsRanked-place m s (remove m l) (IsRanked-remove m l h)

pub lookup-remove :
    (m j : String) (l : Ranked) → lookup j (remove m l) ≡ (if str_eq m j then none else lookup j l)
lookup-remove m j [] = ground arith
lookup-remove m j ((n, t) ∷ l) =
    ground (arith, lookup-remove m j l, eq_iff n m, eq_iff n j, eq_iff m j)

lookup-place :
    (m j : String) (s : ℤ) (l : Ranked)
    → lookup m l ≡ none
    → lookup j (place m s l) ≡ (if str_eq m j then some s else lookup j l)
lookup-place m j s [] h = refl
lookup-place m j s ((n, t) ∷ l) h =
    ground (arith, lookup-place m j s l, eq_iff n m, eq_iff n j, eq_iff m j)

pub lookup-add :
    (m j : String) (s : ℤ) (l : Ranked)
    → lookup j (add m s l) ≡ (if str_eq m j then some s else lookup j l)
lookup-add m j s l =
    ground
      (arith, lookup-place m j s (remove m l), lookup-remove m j l, lookup-remove m m l, eq_iff m m)

-- A member with the lowest score of all is placed first.
pub place_lowest :
    (m : String) (s : ℤ) (l : Ranked)
    → All (λ (x : String × ℤ). ltb_ℤ s x.1 ≡ true) l
    → place m s l ≡ (m, s) ∷ l
place_lowest m s [] h = refl
place_lowest m s ((n, t) ∷ l) h = rw (h.0)

pub add_lowest :
    (m : String) (s : ℤ) (l : Ranked)
    → All (λ (x : String × ℤ). ltb_ℤ s x.1 ≡ true) l
    → add m s l ≡ (m, s) ∷ remove m l
add_lowest m s l h = place_lowest m s (remove m l) (All-remove _ m l h)

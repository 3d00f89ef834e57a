-- ===== src/Statistics/Tables.antt =====
-- Tables of numbers: a dict whose entry is changed in place, for redis-monitor/plugins/stats_monitor.py.
use scrapy_cluster.Prelude.{
  ℕ, ◌+◌, String, ◌≡◌, refl, Option, none, some, [], ◌∷◌, arith, Dict, lookup, insert,
}

-- what is there, or else the new entry of `if key not in the_dict`
abbrev pub or_new {ℓ} : {A : Type ℓ} → A → Option A → A
or_new x none = x
or_new x (some y) = y

-- {k: f(v) for k, v in d.items()}
abbrev pub map_values {ℓ κ} : {A : Type ℓ} {B : Type κ} → (A → B) → Dict A → Dict B
map_values f [] = []
map_values f ((k, v) ∷ d) = (k, f v) ∷ map_values f d

pub map_values-insert {ℓ κ} :
    {A : Type ℓ} {B : Type κ} (f : A → B) (k : String) (v : A) (d : Dict A)
    → map_values f (insert k v d) ≡ insert k (f v) (map_values f d)
map_values-insert f k v [] = refl
map_values-insert f k v ((j, w) ∷ d) = ground (arith, map_values-insert f k v d)

pub lookup-map_values {ℓ κ} :
    {A : Type ℓ} {B : Type κ} (f : A → B) (k : String) (x : A) (d : Dict A)
    → or_new (f x) (lookup k (map_values f d)) ≡ f (or_new x (lookup k d))
lookup-map_values f k x [] = refl
lookup-map_values f k x ((j, w) ∷ d) = ground (arith, lookup-map_values f k x d)

-- the sum of a measure over the entries
abbrev pub sum_of {ℓ} : {A : Type ℓ} → (A → ℕ) → Dict A → ℕ
sum_of f [] = 0
sum_of f ((k, v) ∷ d) = f v + sum_of f d

pub sum_of-insert {ℓ} :
    {A : Type ℓ} (f : A → ℕ) (k : String) (v x : A) (d : Dict A)
    → f x ≡ 0
    → sum_of f (insert k v d) + f (or_new x (lookup k d)) ≡ sum_of f d + f v
sum_of-insert f k v x [] h = omega arith
sum_of-insert f k v x ((j, w) ∷ d) h = ground (arith, sum_of-insert f k v x d h)

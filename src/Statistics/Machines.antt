-- ===== src/Statistics/Machines.antt =====
-- The machines' statistics: get_machine_stats of redis-monitor/plugins/stats_monitor.py.
use scrapy_cluster.Prelude.{
  ℕ, ◌+◌, String, ◌≡◌, refl, ap, subst, ◌∙◌, Bool, false, ◌&&◌, Option, none, some, List, [], ◌∷◌,
  arith, str_eq, eq_iff, Dict, lookup, insert, lookup-insert, inl, inr, Bool-cases, if◌then◌else◌,
}
use scrapy_cluster.Text.{split}
use scrapy_cluster.Redis.{Redis}
use scrapy_cluster.Statistics.Tables.{or_new}
use scrapy_cluster.Statistics.Queues.{and_then}
use scrapy_cluster.Statistics.Spiders.{get_key_value}

-- the dict of the report: machine, response, end
abbrev pub Machines : Type 0
Machines = Dict (Dict (Dict ℕ))

-- the_dict[machine][response][end]
abbrev pub cell : String → String → String → Machines → Option ℕ
cell machine response end t =
    lookup end (or_new [] (lookup response (or_new [] (lookup machine t))))

abbrev pub add_value : ℕ → Option ℕ → ℕ
add_value n none = n
add_value n (some m) = m + n

-- the part of the loop's body that changes the dict
unfoldable pub add_cell : String → String → String → ℕ → Machines → Machines
add_cell machine response end n t =
    let responses = or_new [] (lookup machine t) in
    let ends = or_new [] (lookup response responses) in
    insert machine (insert response (insert end (add_value n (lookup end ends)) ends) responses) t

-- a key that is too short is an IndexError
unfoldable pub count_machine : List String → (String → ℕ) → Machines → Option Machines
count_machine (a ∷ b ∷ machine ∷ spider ∷ response ∷ end ∷ more) value t =
    some (add_cell machine response end (value end) t)
count_machine _ value t = none

-- the value of a key after an entry of a dict is written
row-insert {ℓ} :
    {V : Type ℓ} (x : V) (k j : String) (v : V) (d : Dict V)
    → or_new x (lookup j (insert k v d)) ≡ (if str_eq k j then v else or_new x (lookup j d))
row-insert x k j v d = ground (arith, lookup-insert k j v d)

cell-add_cell :
    (m p e machine response end : String) (n : ℕ) (t : Machines)
    → cell m p e (add_cell machine response end n t) ≡ (
        if str_eq machine m && (str_eq response p && str_eq end e)
        then some (add_value n (cell machine response end t))
        else cell m p e t)
unfolding add_cell
cell-add_cell m p e machine response end n t =
    let responses : Dict (Dict ℕ) = or_new [] (lookup machine t) in
    let ends : Dict ℕ = or_new [] (lookup response responses) in
    let ends' : Dict ℕ = insert end (add_value n (lookup end ends)) ends in
    let responses' : Dict (Dict ℕ) = insert response ends' responses in
    elim (Bool-cases (str_eq machine m)) [
      | inr other ↦ rw (row-insert [] machine m responses' t, other) refl
      | inl same ↦
          let at_machine : responses ≡ or_new [] (lookup m t) =
            ap (λ k. or_new [] (lookup k t)) ((eq_iff machine m).0 same) in
          rw (row-insert [] machine m responses' t, same)
            (elim (Bool-cases (str_eq response p)) [
              | inr other ↦
                  rw (row-insert [] response p ends' responses, other)
                    (ap (λ (q : Dict (Dict ℕ)). lookup e (or_new [] (lookup p q))) at_machine)
              | inl also ↦
                  let at_response : ends ≡ or_new [] (lookup p (or_new [] (lookup m t))) =
                    ap (λ k. or_new [] (lookup k responses)) ((eq_iff response p).0 also)
                    ∙ ap (λ (q : Dict (Dict ℕ)). or_new [] (lookup p q)) at_machine in
                  let written : Option ℕ = some (add_value n (lookup end ends)) in
                  rw (row-insert [] response p ends' responses, also)
                    (lookup-insert end e (add_value n (lookup end ends)) ends
                      ∙ ap (λ (o : Option ℕ). if str_eq end e then written else o)
                          (ap (lookup e) at_response))
            ])
    ]

module _ (r : Redis) (d : r.Db) where
  -- the loop of get_machine_stats; the `count` is the length of the dict
  unfoldable pub get_machine_stats : List String → Machines → Option Machines
  get_machine_stats [] t = some t
  get_machine_stats (key ∷ keys) t =
      and_then (count_machine (split key) (get_key_value r d key) t) (get_machine_stats keys)

  -- the parts are those of this machine, response and end, whatever the spider is
  abbrev pub is_for : String → String → String → List String → Bool
  is_for m p e (a ∷ b ∷ machine ∷ spider ∷ response ∷ end ∷ more) =
      str_eq machine m && (str_eq response p && str_eq end e)
  is_for m p e _ = false

  -- the sum over the keys for a machine, response and end; none where there is no key
  abbrev pub tally : String → String → String → List String → Option ℕ → Option ℕ
  tally m p e [] n = n
  tally m p e (key ∷ keys) n =
      tally m p e keys
        (if is_for m p e (split key) then some (add_value (get_key_value r d key e) n) else n)

  abbrev pub CellIs : String → String → String → Option ℕ → Option Machines → Type 0
  CellIs m p e n none = Unit
  CellIs m p e n (some t) = cell m p e t ≡ n

  module _ (m p e : String) where
    count_machine-CellIs :
        (key : String) (parts : List String) (t : Machines)
        → CellIs m p e
            (if is_for m p e parts
              then some (add_value (get_key_value r d key e) (cell m p e t))
              else cell m p e t)
            (count_machine parts (get_key_value r d key) t)
    unfolding count_machine
    count_machine-CellIs key (a ∷ b ∷ machine ∷ spider ∷ response ∷ end ∷ more) t = ground (
      arith,
      cell-add_cell m p e machine response end (get_key_value r d key end) t,
      eq_iff machine m,
      eq_iff response p,
      eq_iff end e,
    )
    count_machine-CellIs key _ t = tt

    and_then-CellIs :
        (o : Option Machines) (f : Machines → Option Machines) (n n' : Option ℕ)
        → CellIs m p e n o
        → ((t : Machines) → cell m p e t ≡ n → CellIs m p e n' (f t))
        → CellIs m p e n' (and_then o f)
    and_then-CellIs none f n n' h g = tt
    and_then-CellIs (some t) f n n' h g = g t h

    -- The report of the machines: in a result each number of a machine, response and time is the sum
    -- of the values of exactly the keys for these three, over all spiders, and is missing where there
    -- is no such key.
    pub get_machine_stats-CellIs :
        (keys : List String) (t : Machines)
        → CellIs m p e (tally m p e keys (cell m p e t)) (get_machine_stats keys t)
    unfolding get_machine_stats
    get_machine_stats-CellIs [] t = refl
    get_machine_stats-CellIs (key ∷ keys) t =
        and_then-CellIs (count_machine (split key) (get_key_value r d key) t)
          (get_machine_stats keys) _ _ (count_machine-CellIs key (split key) t)
          (λ u now.
            subst (λ n. CellIs m p e (tally m p e keys n) (get_machine_stats keys u)) now
              (get_machine_stats-CellIs keys u))

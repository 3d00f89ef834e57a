-- ===== src/Log/Criteria.antt =====
-- Callbacks with a criterion on what the logger adds (utils/scutils/log_factory.py: add_extras,
-- _write_standard and fire_callbacks).
use scrapy_cluster.Prelude.{
  ℕ, String, ◌≡◌, refl, ap, sym, subst, ◌∙◌, true, false, not, inl, inr, Option, none, some, List,
  [], ◌∷◌, arith, str_eq, eq_iff, leb, is_some, Bool-cases, Option-cases, Dict, lookup, insert,
  erase, lookup-erase, lookup-erase_ne, Distinct, insert-Distinct, erase-Distinct, if-P,
  if◌then◌else◌,
}
use scrapy_cluster.Statistics.Queues.{and_then}
use scrapy_cluster.Log.{
  level_of, Callback, is_subdict, unmatched, fire_callbacks, Logger, insert_new, add_extras,
  Written, stripped, write_standard, write_message, Logged, quiet, key_error, logged, fire_after,
  log,
}

-- the extras that the callbacks get have no level any more
stripped-level : (d : Dict String) → Distinct d → lookup "level" (stripped d) ≡ none
stripped-level d h =
    lookup-erase_ne "logger" "level" (erase "level" (erase "timestamp" d)) (λ e. cc e)
    ∙ lookup-erase "level" (erase "timestamp" d) (erase-Distinct "timestamp" d h)

-- a criterion on a key that is not there is not met
is_subdict-missing :
    (k v : String) (a b : Dict String)
    → lookup k b ≡ none
    → lookup k a ≡ some v
    → is_subdict a b ≡ false
unfolding is_subdict
is_subdict-missing k v [] b away there = cc there
is_subdict-missing k v ((j, w) ∷ a) b away there = elim (Bool-cases (str_eq j k)) [
  | inl same ↦
      let gone : lookup j b ≡ none =
        subst (λ i. lookup i b ≡ none) (sym ((eq_iff j k).0 same)) away in
      rw gone refl
  | inr other ↦
      let rest : lookup k a ≡ some v = ground (arith, there, other) in
      ground (arith, is_subdict-missing k v a b away rest)
]

unmatched-missing :
    (k v : String) (a b : Dict String)
    → lookup k b ≡ none
    → lookup k a ≡ some v
    → unmatched a b ≡ true
unfolding unmatched
unmatched-missing k v [] b away there = cc there
unmatched-missing k v (e ∷ a) b away there = ap not (is_subdict-missing k v (e ∷ a) b away there)

-- the callbacks without a criterion on the level
abbrev pub without_level : List Callback → List Callback
without_level [] = []
without_level (cb ∷ callbacks) =
    if is_some (lookup "level" cb.criteria)
    then without_level callbacks
    else cb ∷ without_level callbacks

fire-without_level :
    (callbacks : List Callback) (extra : Dict String)
    → lookup "level" extra ≡ none
    → fire_callbacks callbacks extra ≡ fire_callbacks (without_level callbacks) extra
unfolding fire_callbacks
fire-without_level [] extra away = refl
fire-without_level (cb ∷ callbacks) extra away =
    let rest = fire-without_level callbacks extra away in
    elim (Option-cases (lookup "level" cb.criteria)) [
      | inl none_there ↦
          rw none_there (ap (λ l. if unmatched cb.criteria extra then l else cb.fn ∷ l) rest)
      | inr (v, there) ↦
          let skipped = unmatched-missing "level" v cb.criteria extra away there in
          rw there (rw skipped rest)
    ]

insert_new-Distinct : (k v : String) (d : Dict String) → Distinct d → Distinct (insert_new k v d)
insert_new-Distinct k v d h =
    if-P Distinct (is_some (lookup k d)) d (insert k v d) h (insert-Distinct k v d h)

add_extras-Distinct :
    (extra : Dict String) (level time : String) (l : Logger)
    → Distinct extra
    → Distinct (add_extras extra level time l)
unfolding add_extras
add_extras-Distinct extra level time l h =
    insert_new-Distinct "logger" l.name _
      (insert_new-Distinct "timestamp" time _ (insert_new-Distinct "level" level extra h))

-- the logger as if no callback with a criterion on the level were registered
abbrev pub forgetful : Logger → Logger
forgetful l = record l { callbacks = λ k. without_level (l.callbacks k) }

standard-forgetful :
    (n : ℕ) (l : Logger) (o : Option String) (w : String → Written) (extra : Dict String)
    → lookup "level" extra ≡ none
    → fire_after n l (and_then o (λ level. some (w level, extra)))
      ≡ fire_after n (forgetful l) (and_then o (λ level. some (w level, extra)))
unfolding fire_after
standard-forgetful n l none w extra away = refl
standard-forgetful n l (some level) w extra away =
    ap (logged (w level)) (fire-without_level (l.callbacks n) extra away)

-- A logger that writes plain text with the extras: whatever else is registered, a call does what it
-- does without the callbacks that have a criterion on the extras' level: the extras that the
-- callbacks get were stripped of it.
pub log-forgetful :
    (str : Dict String → String) (level : String) (n : ℕ) (time message : String)
    (extra : Dict String) (l : Logger)
    → l.json ≡ false
    → l.include_extra ≡ true
    → Distinct extra
    → log str level n time message extra l ≡ log str level n time message extra (forgetful l)
unfolding log write_message write_standard add_extras
log-forgetful str level n time message extra l plain on d =
    let all = add_extras extra level time l in
    let gone : lookup "level" (if l.include_extra then stripped all else all) ≡ none =
      ap (λ b. lookup "level" (if b then stripped all else all)) on
      ∙ stripped-level all (add_extras-Distinct extra level time l d) in
    let same : Logged → Logged = λ x. elim (level_of l.log_level) [
      | none ↦ key_error
      | some threshold ↦ if leb threshold n then x else quiet
    ] in
    ap same (
      subst
        (λ b.
          fire_after n l
            (if b then some (("INFO", message), all) else write_standard str message all l)
          ≡ fire_after n (forgetful l)
              (if b then some (("INFO", message), all) else write_standard str message all l))
        (sym plain) (standard-forgetful n l (lookup "level" all) _ _ gone))

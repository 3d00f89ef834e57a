-- ===== src/Watcher/Stuck.antt =====
-- A watcher whose pointed file could not be read (utils/scutils/zookeeper_watcher.py).
use scrapy_cluster.Prelude.{
  String, ◌≡◌, refl, ap, ◌∙◌, ◌≢◌, Bool, true, false, Option, none, str_eq, eq_iff, arith,
  if◌then◌else◌,
}
use scrapy_cluster.Watcher.{
  valid, error, Watcher, notify, same_bool, set_valid, update_pointed, follow,
}

follow_same :
    (path : String) (zoo : String → Option String) (w : Watcher)
    → path ≢ ""
    → w.old_pointed ≡ path
    → follow path zoo w ≡ record w { pointed_at_expired = false; point_path = path }
unfolding follow
follow_same path zoo w some_path same = rw (differs, equal) refl
  where
    differs : str_eq path "" ≡ false
    differs = ground (arith, eq_iff path "")

    equal : str_eq w.old_pointed path ≡ true
    equal = (eq_iff w.old_pointed path).1 same

set_valid_valid : (b : Bool) (w : Watcher) → (set_valid b w).valid_file ≡ b
unfolding set_valid
set_valid_valid b w = go (same_bool w.valid_file b)
  where
    go :
        (same : Bool)
        → (if same
            then record w { valid_file = b }
            else notify (valid b) (record w { valid_file = b })).valid_file
          ≡ b
    go true = refl
    go false = refl

set_valid_pointed : (b : Bool) (w : Watcher) → (set_valid b w).old_pointed ≡ w.old_pointed
unfolding set_valid
set_valid_pointed b w = go (same_bool w.valid_file b)
  where
    go :
        (same : Bool)
        → (if same
            then record w { valid_file = b }
            else notify (valid b) (record w { valid_file = b })).old_pointed
          ≡ w.old_pointed
    go true = refl
    go false = refl

-- The state after a failed read of the file that is pointed to.
abbrev pub failed : Watcher → Watcher
failed w =
    notify (error "Invalid pointer path")
      (record (set_valid false (record w { old_data = "" })) { pointed_at_expired = true })

update_pointed-none :
    (w : Watcher) → w.pointed_at_expired ≡ false → update_pointed none w ≡ failed w
unfolding update_pointed
update_pointed-none w current = ap (λ b. if b then w else failed w) current

-- If the file that is pointed to could not be read, then writing the same path again does not make
-- the watcher read it, even if it can be read now: the watcher stays invalid and tells nothing.
pub follow_again :
    (path : String) (zoo : String → Option String) (w : Watcher)
    → path ≢ ""
    → w.old_pointed ≡ path
    → w.pointed_at_expired ≡ false
    → ((follow path zoo (update_pointed none w)).valid_file ≡ false)
      × ((follow path zoo (update_pointed none w)).notices ≡ (update_pointed none w).notices)
follow_again path zoo w some_path same current =
    let fails = update_pointed-none w current in
    let again = follow_same path zoo (update_pointed none w) some_path (
      ap (λ x. x.old_pointed) fails
      ∙ set_valid_pointed false (record w { old_data = "" })
      ∙ same) in
    (
      ap (λ x. x.valid_file) again
          ∙ ap (λ x. x.valid_file) fails
          ∙ set_valid_valid false (record w { old_data = "" }),
      ap (λ x. x.notices) again,
    )

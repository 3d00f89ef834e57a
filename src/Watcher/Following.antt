-- ===== src/Watcher/Following.antt =====
-- What the users of `ZookeeperWatcher` (utils/scutils/zookeeper_watcher.py) are told, compared with
-- what it holds.
use scrapy_cluster.Prelude.{
  String, ◌≡◌, refl, ◌⊎◌, inl, inr, Bool, true, false, Option, none, some, List, [], ◌∷◌, str_eq,
  if◌then◌else◌,
}
use scrapy_cluster.Watcher.{
  Notice, valid, config, error, Watcher, notify, same_bool, set_valid, take_data, update_pointed,
  follow, update_file, State, suspended, lost, connected, reconnect, init_connections,
  state_listener, watch_file,
}

-- The contents that the config handler was given last.
abbrev pub last_config : List Notice → Option String
last_config [] = none
last_config (config c ∷ _) = some c
last_config (valid b ∷ notices) = last_config notices
last_config (error e ∷ notices) = last_config notices

-- The contents that the watcher holds are none, or those that the handler was given last.
abbrev pub IsTold : Watcher → Type 0
IsTold w = (w.old_data ≡ "") ⊎ (last_config w.notices ≡ some w.old_data)

if-IsTold : (b : Bool) (x y : Watcher) → IsTold x → IsTold y → IsTold (if b then x else y)
if-IsTold true x y hx hy = hx
if-IsTold false x y hx hy = hy

-- set_valid changes neither the contents nor the last ones given to the handler.
set_valid_data : (b : Bool) (w : Watcher) → (set_valid b w).old_data ≡ w.old_data
unfolding set_valid
set_valid_data b w = go (same_bool w.valid_file b)
  where
    go :
        (same : Bool)
        → (if same
            then record w { valid_file = b }
            else notify (valid b) (record w { valid_file = b })).old_data
          ≡ w.old_data
    go true = refl
    go false = refl

set_valid-IsTold : (b : Bool) (w : Watcher) → IsTold w → IsTold (set_valid b w)
unfolding set_valid
set_valid-IsTold b w told =
    if-IsTold (same_bool w.valid_file b) (record w { valid_file = b })
      (notify (valid b) (record w { valid_file = b })) told told

take_data-IsTold : (contents : String) (w : Watcher) → IsTold w → IsTold (take_data contents w)
unfolding take_data
take_data-IsTold contents w told =
    if-IsTold (str_eq w.old_data contents) w
      (notify (config contents) (record w { old_data = contents })) told (inr refl)

update_pointed-IsTold :
    (read : Option String) (w : Watcher) → IsTold w → IsTold (update_pointed read w)
unfolding update_pointed
update_pointed-IsTold none w told =
    if-IsTold w.pointed_at_expired w _ told
      (inl (set_valid_data false (record w { old_data = "" })))
update_pointed-IsTold (some contents) w told =
    if-IsTold w.pointed_at_expired w _ told
      (set_valid-IsTold true (take_data contents w) (take_data-IsTold contents w told))

follow-IsTold :
    (path : String) (zoo : String → Option String) (w : Watcher)
    → IsTold w
    → IsTold (follow path zoo w)
unfolding follow
follow-IsTold path zoo w told =
    if-IsTold (str_eq path "") _ _
      (inl (
        set_valid_data false
          (record w { pointed_at_expired = true; old_pointed = ""; old_data = "" })))
      (if-IsTold (str_eq w.old_pointed path) _ _ told (
        update_pointed-IsTold (zoo path)
          (record w { pointed_at_expired = false; point_path = path; old_pointed = path }) told))

update_file-IsTold :
    (path : String) (zoo : String → Option String) (w : Watcher)
    → IsTold w
    → IsTold (update_file path zoo w).1
unfolding update_file
update_file-IsTold path zoo w told = go (zoo path)
  where
    Told : Bool × Watcher → Type 0
    Told res = IsTold res.1

    pointed :
        (b : Bool) (result : String)
        → Told
            (if b then (true, follow result zoo w) else (true, set_valid true (take_data result w)))
    pointed true result = follow-IsTold result zoo w told
    pointed false result =
        set_valid-IsTold true (take_data result w) (take_data-IsTold result w told)

    go :
        (read : Option String)
        → Told (elim read [
          | none ↦ (false, notify (error "Invalid get on file path") (set_valid false w))
          | some result ↦
              if w.pointer
              then (true, follow result zoo w)
              else (true, set_valid true (take_data result w))
        ])
    go none = set_valid-IsTold false w told
    go (some result) = pointed w.pointer result

reconnect-IsTold :
    (path : String) (reads : List (String → Option String)) (w : Watcher)
    → IsTold w
    → IsTold (reconnect path reads w)
unfolding reconnect
reconnect-IsTold path [] w told = told
reconnect-IsTold path (zoo ∷ reads) w told =
    let next = update_file-IsTold path zoo w told in
    if-IsTold (update_file path zoo w).0 (update_file path zoo w).1 _ next
      (reconnect-IsTold path reads (update_file path zoo w).1 next)

init_connections-IsTold :
    (path : String) (reads : List (String → Option String)) (w : Watcher)
    → IsTold (init_connections path reads w)
unfolding init_connections
init_connections-IsTold path reads w = reconnect-IsTold path reads _ (inl refl)

-- What can happen to a watcher after its start.
pub data Event : Type 0 where
  file_changed : (String → Option String) → List (String → Option String) → Event
  pointed_changed : Option String → Event
  state_changed : State → List (String → Option String) → Event

unfoldable pub react : String → Event → Watcher → Watcher
react path (file_changed zoo reads) w = watch_file path zoo reads w
react path (pointed_changed read) w = update_pointed read w
react path (state_changed state reads) w = state_listener state path reads w

unfoldable pub run : String → List Event → Watcher → Watcher
run path [] w = w
run path (e ∷ events) w = run path events (react path e w)

state_listener-IsTold :
    (state : State) (path : String) (reads : List (String → Option String)) (w : Watcher)
    → IsTold w
    → IsTold (state_listener state path reads w)
unfolding state_listener
state_listener-IsTold suspended path reads w told = set_valid-IsTold false w told
state_listener-IsTold lost path reads w told =
    if-IsTold w.do_not_restart _ _ told (init_connections-IsTold path reads w)
state_listener-IsTold connected path reads w told = told

react-IsTold : (path : String) (e : Event) (w : Watcher) → IsTold w → IsTold (react path e w)
unfolding react watch_file
react-IsTold path (file_changed zoo reads) w told =
    if-IsTold (update_file path zoo w).0 _ _ (update_file-IsTold path zoo w told)
      (init_connections-IsTold path reads (update_file path zoo w).1)
react-IsTold path (pointed_changed read) w told = update_pointed-IsTold read w told
react-IsTold path (state_changed state reads) w told = state_listener-IsTold state path reads w told

-- Whatever happens to the watched file, to the file that it points to and to the connection, in
-- whatever order: when the watcher holds contents that are not empty, these are the contents that
-- its config handler was given last.
pub run-IsTold :
    (path : String) (events : List Event) (w : Watcher) → IsTold w → IsTold (run path events w)
unfolding run
run-IsTold path [] w told = told
run-IsTold path (e ∷ events) w told =
    run-IsTold path events (react path e w) (react-IsTold path e w told)

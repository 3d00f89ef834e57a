-- ===== src/Watcher.antt =====
-- `ZookeeperWatcher` (utils/scutils/zookeeper_watcher.py): its state, the handlers that it calls and
-- its reaction to what Zookeeper gives. The kazoo client is outside: a read gives a text or fails.
pub mod Following
pub mod Stuck
mod Tests
use scrapy_cluster.Prelude.{
  String, Bool, true, false, not, Option, none, some, List, [], ◌∷◌, str_eq, if◌then◌else◌,
}

-- what is called, the last first
pub data Notice : Type 0 where
  valid : Bool → Notice
  config : String → Notice
  error : String → Notice

pub record Watcher : Type 0 where
  pub pointer : Bool
  pub point_path : String
  -- None is as false
  pub pointed_at_expired : Bool
  pub valid_file : Bool
  pub do_not_restart : Bool
  pub old_data : String
  pub old_pointed : String
  pub notices : List Notice

-- the class's attributes before the first read
abbrev pub fresh : Bool → Watcher
fresh pointer = record {
  pointer = pointer;
  point_path = "";
  pointed_at_expired = false;
  valid_file = false;
  do_not_restart = false;
  old_data = "";
  old_pointed = "";
  notices = [];
}

abbrev pub bad_connection : String
bad_connection = "Connection interrupted with Zookeeper, re-establishing"

abbrev pub notify : Notice → Watcher → Watcher
notify n w = record w { notices = n ∷ w.notices }

abbrev pub same_bool : Bool → Bool → Bool
same_bool true b = b
same_bool false b = not b

-- set_valid, which calls the handler on a change
unfoldable pub set_valid : Bool → Watcher → Watcher
set_valid b w =
    let w' = record w { valid_file = b } in
    if same_bool w.valid_file b then w' else notify (valid b) w'

-- compare_data followed by call_config
unfoldable pub take_data : String → Watcher → Watcher
take_data contents w =
    if str_eq w.old_data contents
    then w
    else notify (config contents) (record w { old_data = contents })

-- update_pointed; `read` is the pointed file, none for a ZookeeperError
unfoldable pub update_pointed : Option String → Watcher → Watcher
update_pointed read w = if w.pointed_at_expired then w else elim read [
  | none ↦
      notify (error "Invalid pointer path")
        (record (set_valid false (record w { old_data = "" })) { pointed_at_expired = true })
  | some contents ↦ set_valid true (take_data contents w)
]

-- the pointer's branch of update_file
unfoldable pub follow : String → (String → Option String) → Watcher → Watcher
follow path zoo w =
    if str_eq path ""
    then notify (error "Invalid pointer path")
        (set_valid false (record w { pointed_at_expired = true; old_pointed = ""; old_data = "" }))
    else let w' = record w { pointed_at_expired = false; point_path = path } in
      if str_eq w'.old_pointed path
      then w'
      else update_pointed (zoo path) (record w' { old_pointed = path })

-- update_file; `zoo` is what a read of a path gives now. False asks for a new connection.
unfoldable pub update_file : String → (String → Option String) → Watcher → Bool × Watcher
update_file path zoo w = elim (zoo path) [
  | none ↦ (false, notify (error "Invalid get on file path") (set_valid false w))
  | some result ↦
      if w.pointer then (true, follow result zoo w) else (true, set_valid true (take_data result w))
]

-- get_file_contents
unfoldable pub get_file_contents : Bool → Watcher → String
get_file_contents pointer w =
    if w.pointer then (if pointer then w.old_pointed else w.old_data) else w.old_data

-- What the state listener does besides its calls of the client.
pub data State : Type 0 where
  suspended : State
  lost : State
  connected : State

-- init_connections with a client that is replaced: the old contents are forgotten, and the watched
-- file is read until a read succeeds; `reads` are the states of Zookeeper at the attempts
unfoldable pub reconnect : String → List (String → Option String) → Watcher → Watcher
reconnect path [] w = w
reconnect path (zoo ∷ reads) w =
    let (success, w') = update_file path zoo w in
    let later = reconnect path reads w' in if success then w' else later

unfoldable pub init_connections : String → List (String → Option String) → Watcher → Watcher
init_connections path reads w =
    reconnect path reads (record (set_valid false w) { old_data = ""; old_pointed = "" })

-- state_listener
unfoldable pub state_listener : State → String → List (String → Option String) → Watcher → Watcher
state_listener suspended path reads w = notify (error bad_connection) (set_valid false w)
state_listener lost path reads w = if w.do_not_restart then w else init_connections path reads w
state_listener connected path reads w = w

-- watch_file
unfoldable pub watch_file :
    String → (String → Option String) → List (String → Option String) → Watcher → Watcher
watch_file path zoo reads w =
    let (success, w') = update_file path zoo w in
    if success then w' else init_connections path reads w'

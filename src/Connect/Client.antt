-- ===== src/Connect/Client.antt =====
-- internal/connect/ws_handler.go: the connections of a node, and the commands that a client sends.
pub mod Registered
pub mod Membership
pub mod ReadPump
pub mod Buffers
pub mod WritePump
pub mod Sections
use Prim.Native.String.{String}
use text.Mathlib.Text.{◌==◌ as str_eq}
use likegochat.Prelude.{
  ℕ, suc, ◌+◌, ◌≡◌, Bool, true, false, not, ◌&&◌, ◌||◌, List, [], ◌∷◌, Option, none, some, map, Map,
  lookup, insert, delete, update, ◌==◌, if◌then◌else◌, keys,
}
use likegochat.Connect.Chan.{Payload, Chans, has_room, offer}
use likegochat.Connect.RoomManager.{
  RoomManager, new_room_manager, join_room, leave_room, is_nonpositive,
}

-- `once` is the state of `closeOnce`, `done_closes` counts the calls `close(c.done)`, and `conn_open`
-- says that the socket has not been closed.
pub record Client : Type 0 where
  pub user_id : ℕ
  pub send : ℕ
  pub rooms : Map (Unit {0})
  pub once : Bool
  pub done_closes : ℕ
  pub conn_open : Bool

-- One connect node. `clients` is the map of `DefaultManager`, from user id to the address of a
-- client; `heap` the client at each address; 0 is the nil pointer. `manager` is
-- `DefaultRoomManager`, and `chans` the buffers of the clients' channels.
pub record Node : Type 0 where
  pub clients : Map ℕ
  pub heap : ℕ → Client
  pub next : ℕ
  pub manager : RoomManager
  pub chans : Chans

abbrev pub nil_client : ℕ
nil_client = 0

abbrev pub write_client : ℕ → Client → Node → Node
write_client p c n = record n { heap = update n.heap p c }

-- The client that `ServeWS` makes; its channel has the client's address.
abbrev fresh_client : ℕ → ℕ → Client
fresh_client user_id p = record {
  user_id = user_id;
  send = p;
  rooms = [];
  once = false;
  done_closes = 0;
  conn_open = true;
}

pub new_client : ℕ → Node → Node
new_client user_id n = record n {
  heap = update n.heap n.next (fresh_client user_id n.next);
  next = suc n.next;
  chans = update n.chans n.next [];
}

-- `DefaultManager` and `DefaultRoomManager` as a node starts, with no client made.
unfoldable pub new_node : ℕ → Node
new_node bucket_num = record {
  clients = [];
  heap = λ p. fresh_client 0 p;
  next = 1;
  manager = new_room_manager bucket_num;
  chans = λ _. [];
}

abbrev closed : Client → Client
closed c =
    if c.once
    then c
    else record c { once = true; done_closes = c.done_closes + 1; conn_open = false }

pub close_conn : ℕ → Node → Node
close_conn p n = write_client p (closed (n.heap p)) n

pub add_client : ℕ → ℕ → Node → Node
unfolding close_conn
add_client user_id client n =
    let m = record n { clients = insert user_id client n.clients } in
    elim (lookup user_id n.clients) [
      | none ↦ m
      | some old ↦ if not (old == nil_client) && not (old == client) then close_conn old m else m
    ]

-- `ServeWS` after the upgrade: it makes a client and registers it.
unfoldable pub connect : ℕ → Node → Node
unfolding add_client new_client
connect user_id n = add_client user_id n.next (new_client user_id n)

pub remove_client_if_match : ℕ → ℕ → Node → Node × Bool
unfolding close_conn
remove_client_if_match user_id expect n = elim (lookup user_id n.clients) [
  | none ↦ (n, false)
  | some cc ↦
      if not (expect == nil_client) && not (cc == expect)
      then (n, false)
      else (close_conn cc (record n { clients = delete user_id n.clients }), true)
]

pub remove_client : ℕ → Node → Node
unfolding remove_client_if_match
remove_client user_id n = (remove_client_if_match user_id nil_client n).0

-- A `select` whose cases are ready takes any one of them: `prefers_done` is the choice that it makes
-- if the client is closed and its buffer has room.
pub try_send : Bool → ℕ → Payload → Node → Node × Bool
try_send prefers_done p payload n =
    let c = n.heap p in
    if c.once && (prefers_done || not (has_room n.chans c.send))
    then (n, false)
    else let (chans, sent) = offer c.send payload n.chans in (record n { chans = chans }, sent)

pub add_room : ℕ → ℕ → Node → Node
add_room p room_id n =
    write_client p (record (n.heap p) { rooms = insert room_id tt (n.heap p).rooms }) n

pub remove_room : ℕ → ℕ → Node → Node
remove_room p room_id n =
    write_client p (record (n.heap p) { rooms = delete room_id (n.heap p).rooms }) n

pub record RoomCmd : Type 0 where
  pub op : String
  pub room_id : ℕ

-- What `ReadMessage` and `json.Unmarshal(message, &in)` give one round of `readPump`: no message, a
-- message that is no command, or what the pointer `in` leads to afterwards. `none` is the nil pointer, to
-- which encoding/json sets a pointer for the JSON text `null`.
pub data Incoming : Type 0 where
  read_error bad_request : Incoming
  unmarshalled : Option RoomCmd → Incoming

-- After a round the loop goes on, has ended, or has panicked on the nil pointer.
pub data Round : Type 0 where
  goes_on : Node → Round
  ended : Node → Round
  panicked : Round

-- A read through a pointer, as that of `in.Op`: through nil it panics.
abbrev dereference : {A : Type 0} → Option A → (A → Round) → Round
dereference none rest = panicked
dereference (some value) rest = rest value

-- The deferred cleanup. The flag says that the user is unregistered from Redis.
pub cleanup : ℕ → Node → Node × Bool
unfolding remove_client_if_match
cleanup p n = remove_client_if_match (n.heap p).user_id p n

module _ (hash32 : List ℕ → ℕ) where
  -- `leaveAllRooms`, after the keys of the map are copied.
  pub leave_rooms : List ℕ → ℕ → ℕ → RoomManager → RoomManager
  leave_rooms [] user_id send m = m
  leave_rooms (id ∷ ids) user_id send m =
      leave_rooms ids user_id send (leave_room hash32 id user_id send m)

  pub leave_all_rooms : ℕ → Node → Node
  unfolding leave_rooms
  leave_all_rooms p n =
      let c = n.heap p in
      let emptied = write_client p (record c { rooms = [] }) n in
      record emptied { manager = leave_rooms (keys c.rooms) c.user_id c.send n.manager }

  pub join_command : ℕ → ℕ → Node → Node
  unfolding add_room
  join_command p room_id n =
      let c = n.heap p in
      add_room p room_id
        (record n { manager = join_room hash32 room_id c.user_id c.send n.manager })

  pub leave_command : ℕ → ℕ → Node → Node
  unfolding remove_room
  leave_command p room_id n =
      let c = n.heap p in
      remove_room p room_id
        (record n { manager = leave_room hash32 room_id c.user_id c.send n.manager })

  -- The `switch` of `readPump` on one command.
  unfoldable pub run_command : ℕ → RoomCmd → Node → Node
  unfolding join_command leave_command
  run_command p cmd n =
      if str_eq cmd.op "joinRoom"
      then (if is_nonpositive cmd.room_id then n else join_command p cmd.room_id n)
      else if str_eq cmd.op "leaveRoom"
      then (if is_nonpositive cmd.room_id then n else leave_command p cmd.room_id n)
      else n

  pub read_round : ℕ → Incoming → Node → Round
  unfolding run_command leave_all_rooms
  read_round p read_error n = ended (leave_all_rooms p n)
  read_round p bad_request n = goes_on n
  read_round p (unmarshalled in_) n = dereference in_ (λ cmd. goes_on (run_command p cmd n))

  -- `readPump` on the messages of a connection; `goes_on` means that none of them has ended it.
  pub read_pump : ℕ → List Incoming → Node → Round
  unfolding read_round cleanup
  read_pump p [] n = goes_on n
  read_pump p (m ∷ ms) n = elim (read_round p m n) [
    | goes_on n' ↦ read_pump p ms n'
    | ended n' ↦ ended (cleanup p n').0
    | panicked ↦ panicked
  ]

-- ===== src/Connect/Room.antt =====
-- internal/connect/room.go: a room keeps its members in a `container/list`, and an index from user
-- to list element.
pub mod Refine
pub mod Broadcast
use likegochat.Prelude.{
  ℕ, zero, suc, ◌+◌, ◌≤◌, ◌≡◌, refl, Bool, true, false, not, ◌&&◌, List, [], ◌∷◌, ◌++◌, Option,
  none, some, arith, Map, lookup, insert, delete, update, count, remove_first, is_empty, ◌==◌,
  if◌then◌else◌,
}
use likegochat.Connect.Chan.{Payload, Chans, nil_chan, offer}

pub record RoomNode : Type 0 where
  pub user_id : ℕ
  pub send : ℕ

-- `members` holds the addresses of the list elements from front to back, `elems` the `Value` of each
-- address, and `next` is the address of the next element that `PushBack` allocates.
pub record Room : Type 0 where
  pub members : List ℕ
  pub elems : ℕ → RoomNode
  pub index : Map ℕ
  pub next : ℕ

abbrev no_node : RoomNode
no_node = record { user_id = 0; send = nil_chan }

unfoldable pub new_room : Room
new_room = record { members = []; elems = λ _. no_node; index = []; next = 0 }

push_back : RoomNode → Room → Room
push_back n r = record r {
  members = r.members ++ r.next ∷ [];
  elems = update r.elems r.next n;
  next = suc r.next;
}

unfoldable pub join : ℕ → ℕ → Room → Room
unfolding push_back
join user_id send r = elim (lookup user_id r.index) [
  | some elem ↦ record r { elems = update r.elems elem (record (r.elems elem) { send = send }) }
  | none ↦
      let pushed = push_back (record { user_id = user_id; send = send }) r in
      record pushed { index = insert user_id r.next r.index }
]

-- `members.Len() == 0`
abbrev pub is_vacant : Room → Bool
is_vacant r = is_empty r.members

remove_elem : ℕ → ℕ → Room → Room
remove_elem elem user_id r = record r {
  members = remove_first elem r.members;
  index = delete user_id r.index;
}

-- The element that `Leave` removes, if it removes one.
abbrev leaves : ℕ → ℕ → Room → Bool
leaves elem expect_send r =
    not (not (expect_send == nil_chan) && not ((r.elems elem).send == expect_send))

pub leave : ℕ → ℕ → Room → Room × Bool
unfolding remove_elem
leave user_id expect_send r = elim (lookup user_id r.index) [
  | none ↦ (r, is_vacant r)
  | some elem ↦
      if leaves elem expect_send r
      then (remove_elem elem user_id r, is_vacant (remove_elem elem user_id r))
      else (r, is_vacant r)
]

-- The channels that `Broadcast` collects under the read lock.
pub collect : ℕ → (ℕ → RoomNode) → List ℕ → List ℕ
collect from_user_id elems [] = []
collect from_user_id elems (e ∷ es) =
    let rest = collect from_user_id elems es in
    if (elems e).user_id == from_user_id then rest else (elems e).send ∷ rest

-- The loop that sends to each of them, with `sent` so far.
unfoldable pub send_all : List ℕ → Payload → Chans → ℕ → Chans × ℕ
send_all [] payload cs sent = (cs, sent)
send_all (ch ∷ targets) payload cs sent =
    let (cs', done) = offer ch payload cs in
    send_all targets payload cs' (if done then sent + 1 else sent)

pub broadcast : ℕ → Payload → Room → Chans → Chans × ℕ
unfolding collect send_all
broadcast from_user_id payload r cs = send_all (collect from_user_id r.elems r.members) payload cs 0

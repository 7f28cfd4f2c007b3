-- ===== src/Connect/RoomManager.antt =====
-- internal/connect/room_manager.go: rooms in hash buckets. Rooms are addressed, since `LeaveRoom`
-- compares pointers; `farm.Hash32` is a parameter.
pub mod Buckets
pub mod Invariant
pub mod Held
pub mod Members
pub mod Occupied
pub mod Broadcast
pub mod Interleaving
mod Tests
use likegochat.Prelude.{
  ℕ, zero, suc, ◌+◌, ◌-◌, ◌/◌, ◌%◌, ◌^◌, ◌≤◌, ◌<◌, ◌≡◌, Bool, true, false, ◌&&◌, ◌||◌, List, [],
  ◌∷◌, Option, none, some, Map, lookup, insert, delete, update, length, get_or, set, replicate,
  ◌==◌, leb, if◌then◌else◌,
}
use likegochat.Connect.Chan.{Payload, Chans}
use likegochat.Connect.Room.{Room, new_room, join, leave, broadcast, is_vacant}

-- `buckets` holds the `rooms` map of each bucket, from room id to the address of a room; `heap` the
-- room at each address; and `next_room` is the address of the next room that is made.
pub record RoomManager : Type 0 where
  pub buckets : List (Map ℕ)
  pub heap : ℕ → Room
  pub next_room : ℕ

abbrev pub default_bucket_num : ℕ
default_bucket_num = 64

-- `n <= 0` of the 64-bit integer with this bit pattern.
abbrev pub is_nonpositive : ℕ → Bool
is_nonpositive n = n == 0 || leb (2 ^ 63) n

unfoldable pub new_room_manager : ℕ → RoomManager
new_room_manager bucket_num = record {
  buckets = replicate (if is_nonpositive bucket_num then default_bucket_num else bucket_num) [];
  heap = λ _. new_room;
  next_room = 0;
}

-- `binary.LittleEndian.PutUint64`, of `n` bytes.
abbrev le_bytes : ℕ → ℕ → List ℕ
le_bytes zero x = []
le_bytes (suc n) x = (x % 256) ∷ le_bytes n (x / 256)

pub write_room : ℕ → Room → RoomManager → RoomManager
write_room r room m = record m { heap = update m.heap r room }

pub join_at : ℕ → ℕ → ℕ → RoomManager → RoomManager
unfolding write_room
join_at r user_id send m = write_room r (join user_id send (m.heap r)) m

-- `r.Leave(userID, send)` on the room at `r`, whether or not the room is still in its bucket.
pub leave_member : ℕ → ℕ → ℕ → RoomManager → RoomManager × Bool
unfolding write_room
leave_member r user_id send m =
    let (room, empty) = leave user_id send (m.heap r) in (write_room r room m, empty)

module _ (hash32 : List ℕ → ℕ) where
  unfoldable pub bucket_by_room_id : ℕ → RoomManager → ℕ
  bucket_by_room_id room_id m = hash32 (le_bytes 8 room_id) % (length m.buckets % 2 ^ 32)

  -- `b.rooms[roomID]` of the bucket of the room.
  unfoldable pub find_room : ℕ → RoomManager → Option ℕ
  find_room room_id m = lookup room_id (get_or m.buckets (bucket_by_room_id room_id m) [])

  -- `b.rooms[roomID] = r`
  pub bind_room : ℕ → ℕ → RoomManager → RoomManager
  bind_room room_id r m =
      let i = bucket_by_room_id room_id m in
      record m { buckets = set m.buckets i (insert room_id r (get_or m.buckets i [])) }

  -- `delete(b.rooms, roomID)`
  pub drop_room : ℕ → RoomManager → RoomManager
  drop_room room_id m =
      let i = bucket_by_room_id room_id m in
      record m { buckets = set m.buckets i (delete room_id (get_or m.buckets i [])) }

  -- `r = NewRoom(); b.rooms[roomID] = r`
  pub create_room : ℕ → RoomManager → RoomManager
  unfolding bind_room
  create_room room_id m = record (bind_room room_id m.next_room m) {
    heap = update m.heap m.next_room new_room;
    next_room = suc m.next_room;
  }

  unfoldable pub join_room : ℕ → ℕ → ℕ → RoomManager → RoomManager
  unfolding join_at create_room
  join_room room_id user_id send m = elim (find_room room_id m) [
    | some r ↦ join_at r user_id send m
    | none ↦ join_at m.next_room user_id send (create_room room_id m)
  ]

  -- The second look under the write lock: the room is deleted if the bucket still has this very room
  -- and it is still empty.
  pub reclaim_room : ℕ → ℕ → RoomManager → RoomManager
  unfolding drop_room
  reclaim_room room_id r m = elim (find_room room_id m) [
    | none ↦ m
    | some r2 ↦ if (r2 == r) && is_vacant (m.heap r2) then drop_room room_id m else m
  ]

  -- `LeaveRoom`, with no other call between its three sections.
  pub leave_room : ℕ → ℕ → ℕ → RoomManager → RoomManager
  unfolding leave_member reclaim_room
  leave_room room_id user_id send m = elim (find_room room_id m) [
    | none ↦ m
    | some r ↦
        let (left, empty) = leave_member r user_id send m in
        if empty then reclaim_room room_id r left else left
  ]

  pub broadcast_room : ℕ → ℕ → Payload → RoomManager → Chans → Chans × ℕ
  broadcast_room room_id from_user_id payload m cs = elim (find_room room_id m) [
    | none ↦ (cs, 0)
    | some r ↦ broadcast from_user_id payload (m.heap r) cs
  ]

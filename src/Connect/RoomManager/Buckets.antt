-- ===== src/Connect/RoomManager/Buckets.antt =====
-- The buckets together are one map from room id to room.
use likegochat.Prelude.{
  ℕ, ◌^◌, ◌<◌, ◌≡◌, List, [], none, some, arith, Map, lookup, insert, delete, lookup-insert,
  lookup-delete, length, length-set, length-replicate, get_or, set, get_or-set_self, get_or-set_ne,
  get_or-replicate, ◌==◌, if◌then◌else◌, refl,
}
use likegochat.Connect.RoomManager.{
  RoomManager, new_room_manager, find_room, bind_room, drop_room, bucket_by_room_id, join_at,
  leave_member,
}

-- The number of buckets, an `int` that `uint32(len(m.buckets))` does not cut.
abbrev pub IsSized : RoomManager → Type 0
IsSized m = (0 < length m.buckets) × (length m.buckets < 2 ^ 32)

pub new_room_manager-IsSized : (n : ℕ) → n < 2 ^ 32 → IsSized (new_room_manager n)
unfolding new_room_manager
new_room_manager-IsSized n h =
    ground (arith, length-replicate {A = Map ℕ} n [], length-replicate {A = Map ℕ} 64 [])

module _ (hash32 : List ℕ → ℕ) where
  bucket_in_range :
      (id : ℕ) (m : RoomManager) → IsSized m → bucket_by_room_id hash32 id m < length m.buckets
  unfolding bucket_by_room_id
  bucket_in_range id m h = omega arith

  find_room-set :
      (i j : ℕ) (b : Map ℕ) (m : RoomManager)
      → i < length m.buckets
      → find_room hash32 j (record m { buckets = set m.buckets i b })
        ≡ (if i == bucket_by_room_id hash32 j m then lookup j b else find_room hash32 j m)
  unfolding find_room bucket_by_room_id
  find_room-set i j b m h = ground (
    arith,
    length-set m.buckets i b,
    get_or-set_self m.buckets i b [] h,
    get_or-set_ne m.buckets i (bucket_by_room_id hash32 j m) b [],
  )

  pub find_room-new : (n id : ℕ) → find_room hash32 id (new_room_manager n) ≡ none
  unfolding find_room new_room_manager lookup
  find_room-new n id = rw get_or-replicate

  pub find_room-bind :
      (id r j : ℕ) (m : RoomManager)
      → IsSized m
      → find_room hash32 j (bind_room hash32 id r m)
        ≡ (if id == j then some r else find_room hash32 j m)
  unfolding find_room bind_room
  find_room-bind id r j m h = ground (
    arith,
    bucket_in_range id m h,
    find_room-set (bucket_by_room_id hash32 id m) j
        (insert id r (get_or m.buckets (bucket_by_room_id hash32 id m) [])) m,
    lookup-insert id j r (get_or m.buckets (bucket_by_room_id hash32 id m) []),
  )

  pub find_room-drop :
      (id j : ℕ) (m : RoomManager)
      → IsSized m
      → find_room hash32 j (drop_room hash32 id m)
        ≡ (if id == j then none else find_room hash32 j m)
  unfolding find_room drop_room
  find_room-drop id j m h = ground (
    arith,
    bucket_in_range id m h,
    find_room-set (bucket_by_room_id hash32 id m) j
        (delete id (get_or m.buckets (bucket_by_room_id hash32 id m) [])) m,
    lookup-delete id j (get_or m.buckets (bucket_by_room_id hash32 id m) []),
  )

  pub bind_room-IsSized :
      (id r : ℕ) (m : RoomManager) → IsSized m → IsSized (bind_room hash32 id r m)
  unfolding bind_room
  bind_room-IsSized id r m h = omega (
    arith,
    length-set m.buckets (bucket_by_room_id hash32 id m)
        (insert id r (get_or m.buckets (bucket_by_room_id hash32 id m) [])),
    h,
  )

  pub drop_room-IsSized : (id : ℕ) (m : RoomManager) → IsSized m → IsSized (drop_room hash32 id m)
  unfolding drop_room
  drop_room-IsSized id m h = omega (
    arith,
    length-set m.buckets (bucket_by_room_id hash32 id m)
        (delete id (get_or m.buckets (bucket_by_room_id hash32 id m) [])),
    h,
  )

  -- A lookup does not read the rooms.
  pub find_room-join_at :
      (r u s j : ℕ) (m : RoomManager) → find_room hash32 j (join_at r u s m) ≡ find_room hash32 j m
  unfolding join_at find_room bucket_by_room_id
  find_room-join_at r u s j m = refl

  pub find_room-leave_member :
      (r u s j : ℕ) (m : RoomManager)
      → find_room hash32 j (leave_member r u s m).0 ≡ find_room hash32 j m
  unfolding leave_member find_room bucket_by_room_id
  find_room-leave_member r u s j m = refl

-- ===== src/Connect/RoomManager/Tests.antt =====
-- Concrete runs of the room manager.
use likegochat.Connect.RoomManager.Buckets.{find_room-new}
use likegochat.Prelude.{
  ℕ, ◌≡◌, List, [], ◌∷◌, some, refl, if◌then◌else◌, update, arith, lookup, insert,
}
use likegochat.Connect.RoomManager.{
  RoomManager, new_room_manager, find_room, join_room, leave_member, update, bucket_by_room_id,
  lookup, insert,
}
use likegochat.Connect.RoomManager.Invariant.{Inv, new_room_manager-Inv, join_room-Inv}
use likegochat.Connect.RoomManager.Members.{member_of}
use likegochat.Connect.RoomManager.Occupied.{IsOccupied, join_room-IsOccupied}
use likegochat.Connect.RoomManager.Interleaving.{
  System, Run, Step, IsSafe, effect, Run-IsSafe, member_of-Run, idle, left, looked, found,
  Step-members, emptied, next, joined, start, looks, joins, leaves,
}

abbrev hash_zero : List ℕ → ℕ
hash_zero bytes = 0

-- User 8 is in room 5.
abbrev one_room : RoomManager
one_room = join_room hash_zero 5 8 2 (new_room_manager 4)

one_room-Inv : Inv hash_zero one_room
one_room-Inv = join_room-Inv hash_zero 5 8 2 (new_room_manager-Inv hash_zero 4 (omega arith))

abbrev quiet : System
quiet = record { mgr = one_room; pc = λ i. idle }

quiet-IsSafe : IsSafe hash_zero quiet
quiet-IsSafe = record { inv = one_room-Inv; held = λ i. tt }

-- User 7 joins, and its leave runs as far as its second section.
abbrev joined_seven : System
joined_seven = record quiet { mgr = join_room hash_zero 5 7 1 one_room }

abbrev looked_up : System
looked_up = record joined_seven { pc = update joined_seven.pc 0 (found 5 7 1 0) }

abbrev left_room : System
left_room = record looked_up {
  mgr = (leave_member 0 7 1 looked_up.mgr).0;
  pc = update looked_up.pc 0 (if (leave_member 0 7 1 looked_up.mgr).1 then emptied 5 0 else idle);
}

finds_room : find_room hash_zero 5 joined_seven.mgr ≡ some 0
unfolding join_room find_room bucket_by_room_id new_room_manager lookup insert
finds_room = refl

looked_up-Run : Run hash_zero quiet (looked ∷ joined 5 7 1 ∷ []) looked_up
looked_up-Run = next (next start (joins 0 5 7 1 refl)) (looks 0 5 7 1 0 refl finds_room)

leaving : Step hash_zero looked_up (left 5 7 1 0) left_room
leaving = leaves 0 5 7 1 0 refl

member_of-Run_example : member_of hash_zero 5 8 left_room.mgr ≡ member_of hash_zero 5 8 quiet.mgr
member_of-Run_example =
    member_of-Run hash_zero 5 8 quiet-IsSafe (next looked_up-Run leaving) (refl, (refl, (refl, tt)))

Run-IsSafe_example : IsSafe hash_zero left_room
Run-IsSafe_example = Run-IsSafe hash_zero (next looked_up-Run leaving) quiet-IsSafe

Step-members_example :
    member_of hash_zero 5 7 left_room.mgr
    ≡ effect hash_zero (left 5 7 1 0) looked_up.mgr 5 7 (member_of hash_zero 5 7 looked_up.mgr)
Step-members_example =
    Step-members hash_zero (Run-IsSafe hash_zero looked_up-Run quiet-IsSafe) leaving 5 7

new-IsOccupied : IsOccupied hash_zero (new_room_manager 4)
new-IsOccupied id r e = ground (arith, e, find_room-new hash_zero 4 id)

one_room-IsOccupied : IsOccupied hash_zero one_room
one_room-IsOccupied =
    join_room-IsOccupied hash_zero 5 8 2 (new_room_manager-Inv hash_zero 4 (omega arith))
      new-IsOccupied

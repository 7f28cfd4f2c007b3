-- ===== src/Connect/Samples.antt =====
-- A node with two clients, for the concrete runs.
use likegochat.Connect.Chan.{has_room}
use likegochat.Connect.Room.Refine.{channel_of}
use likegochat.Connect.RoomManager.Members.{member_of}
use likegochat.Connect.Room.{join, new_room}
use likegochat.Connect.Reachable.{connected}
use likegochat.Connect.RoomManager.{join_room, bucket_by_room_id, find_room, new_room_manager}
use likegochat.Prelude.{List, ℕ, Bool, lookup, false, insert, arith, ◌≡◌, refl, some, true}
use likegochat.Connect.Client.{RoomCmd, Node, connect, run_command, new_node}
use likegochat.Connect.Reachable.{
  Invs, Reachable, Reachable-Invs, stepped, commanded, started, connected,
}

abbrev pub hash_zero : List ℕ → ℕ
hash_zero bytes = 0

abbrev pub join_five : RoomCmd
join_five = record { op = "joinRoom"; room_id = 5 }

-- Users 7 and 8 connect.
abbrev pub two_clients : Node
two_clients = connect 8 (connect 7 (new_node 4))

abbrev pub one_member : Node
one_member = run_command hash_zero 1 join_five two_clients

-- Both are in room 5.
abbrev pub two_members : Node
two_members = run_command hash_zero 2 join_five one_member

pub two_clients-Reachable : Reachable hash_zero two_clients
two_clients-Reachable = stepped (stepped (started 4 (omega arith)) (connected 7)) (connected 8)

pub two_clients_next : two_clients.next ≡ 3
unfolding connect new_node lookup insert
two_clients_next = refl

pub one_member_next : one_member.next ≡ 3
unfolding connect new_node run_command lookup insert
one_member_next = refl

pub two_members_next : two_members.next ≡ 3
unfolding connect new_node run_command lookup insert
two_members_next = refl

pub two_members-Reachable : Reachable hash_zero two_members
two_members-Reachable =
    stepped
      (stepped two_clients-Reachable
        (commanded 1 join_five (omega arith) (omega (arith, two_clients_next))))
      (commanded 2 join_five (omega arith) (omega (arith, one_member_next)))

pub member_seven : member_of hash_zero 5 7 two_members.manager ≡ some 1
unfolding connect new_node run_command join_room bucket_by_room_id join new_room member_of find_room
    new_room_manager channel_of lookup insert
member_seven = refl

pub two_clients-Invs : Invs hash_zero two_clients
two_clients-Invs = Reachable-Invs hash_zero two_clients-Reachable

pub two_members-Invs : Invs hash_zero two_members
two_members-Invs = Reachable-Invs hash_zero two_members-Reachable

pub prefers_open : ℕ → Bool
prefers_open p = false

pub members_seven : lookup 7 two_members.clients ≡ some 1
unfolding connect new_node run_command lookup insert
members_seven = refl

pub room_seven : has_room two_members.chans (two_members.heap 1).send ≡ true
unfolding connect new_node run_command lookup insert
room_seven = refl

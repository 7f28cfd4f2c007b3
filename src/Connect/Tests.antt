-- ===== src/Connect/Tests.antt =====
-- Concrete runs of the connect layer.
use likegochat.Connect.Samples.{
  prefers_open, hash_zero, join_five, two_members, two_clients, two_members-Reachable,
  two_clients-Invs, two_clients_next,
}
use likegochat.Connect.Room.Broadcast.{free_slots}
use likegochat.Connect.GrpcServer.Pushes.{named, push_msg_to_users_lem}
use Prim.Native.Nat.{min}
use likegochat.Connect.Client.ReadPump.{IsLive, IsGone, read_pump_ends}
use likegochat.Connect.GrpcServer.{PushAllRequest, push_msg_to_users}
use likegochat.Prelude.{◌≡◌, List, arith, true, ◌++◌, ◌∷◌, [], ◌≤◌, ◌↔◌, replicate, ℕ, some}
use likegochat.Connect.Client.{
  Node, Incoming, read_pump, unmarshalled, bad_request, read_error, ended,
}
use likegochat.Connect.Reachable.{Invs, Reachable-Invs}

Reachable-Invs_example : Invs hash_zero two_members
Reachable-Invs_example = Reachable-Invs hash_zero two_members-Reachable

two_clients-IsLive : IsLive hash_zero 1 two_clients
two_clients-IsLive = record {
  table = two_clients-Invs.table;
  rooms = two_clients-Invs.rooms;
  real = omega arith;
  made = omega (arith, two_clients_next);
}

abbrev some_messages : List Incoming
some_messages = unmarshalled (some join_five) ∷ bad_request ∷ []

read_pump_ends_example :
    (n' : Node) × (read_pump hash_zero 1 (some_messages ++ read_error ∷ []) two_clients ≡ ended n')
    × IsGone hash_zero 1 n'
    × IsLive hash_zero 1 n'
read_pump_ends_example = read_pump_ends hash_zero 1 some_messages tt two_clients-IsLive

abbrev to_both : PushAllRequest
to_both = record { group_id = 3; payload = 1 ∷ []; user_ids = 7 ∷ 8 ∷ 9 ∷ []; msg_type = 1 }

push_msg_to_users_lem_example :
    ((d : ℕ)
      → (push_msg_to_users prefers_open to_both two_clients).0.chans d
        ≡ two_clients.chans d
          ++ replicate
              (min (named d to_both.user_ids two_clients) (free_slots two_clients.chans d))
              (1 ∷ []))
    × (((push_msg_to_users prefers_open to_both two_clients).1 ≡ true)
        ↔ ((d : ℕ) → named d to_both.user_ids two_clients ≤ free_slots two_clients.chans d))
push_msg_to_users_lem_example =
    push_msg_to_users_lem prefers_open to_both two_clients two_clients-Invs.table

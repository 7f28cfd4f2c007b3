-- ===== src/Connect/Client/ReadPump.antt =====
-- A connection from its first message to its cleanup.
use likegochat.Connect.RoomManager.Members.{member_of}
use likegochat.Prelude.{
  ℕ, ◌≡◌, List, ◌<◌, [], arith, ◌≢◌, ◌++◌, some, lookup, refl, true, lookup-delete,
}
use likegochat.Connect.Client.{
  panicked, ended, read_error, bad_request, unmarshalled, none, Node, List, Incoming, run_command,
  RoomCmd, ◌∷◌, leave_all_rooms, read_pump, cleanup, read_error, some, ended, panicked, lookup,
  true,
}
use likegochat.Connect.Client.Registered.{
  Inv, remove-Inv, SameTable-Inv, run_command-SameTable, leave_all_rooms-SameTable,
}
use likegochat.Connect.Client.Membership.{
  Tracked, run_command-Tracked, leave_all_rooms-Tracked, leave_all_rooms_lem,
}

-- Both invariants of a node, and a client that `ServeWS` has made.
pub record IsLive (hash32 : List ℕ → ℕ) (p : ℕ) (n : Node) : Type 0 where
  pub table : Inv n
  pub rooms : Tracked hash32 n
  pub real : 0 < p
  pub made : p < n.next

-- The messages before the read error: commands, or text that is no JSON.
abbrev pub IsOrdinary : List Incoming → Type 0
IsOrdinary [] = Unit {0}
IsOrdinary (read_error ∷ ms) = ⊥
IsOrdinary (bad_request ∷ ms) = IsOrdinary ms
IsOrdinary (unmarshalled none ∷ ms) = ⊥
IsOrdinary (unmarshalled (some cmd) ∷ ms) = IsOrdinary ms

module _ (hash32 : List ℕ → ℕ) (p : ℕ) where
  command-IsLive :
      (cmd : RoomCmd) {n : Node} → IsLive hash32 p n → IsLive hash32 p (run_command hash32 p cmd n)
  command-IsLive cmd {n} v = record {
    table = SameTable-Inv (run_command-SameTable hash32 p cmd n) v.table;
    rooms = run_command-Tracked hash32 p cmd v.rooms v.real v.made;
    real = v.real;
    made = ground (arith, (run_command-SameTable hash32 p cmd n).next, v.made);
  }

  leave-IsLive : {n : Node} → IsLive hash32 p n → IsLive hash32 p (leave_all_rooms hash32 p n)
  unfolding leave_all_rooms
  leave-IsLive {n} v = record {
    table = SameTable-Inv (leave_all_rooms-SameTable hash32 p n) v.table;
    rooms = leave_all_rooms-Tracked hash32 p v.rooms v.real;
    real = v.real;
    made = v.made;
  }

  cleanup_manager : (n : Node) → (cleanup p n).0.manager ≡ n.manager
  unfolding cleanup
  cleanup_manager n = ground arith

  pub cleanup-Tracked : (n : Node) → Tracked hash32 n → Tracked hash32 (cleanup p n).0
  unfolding cleanup
  cleanup-Tracked n v = record {
    inv = rw (cleanup_manager n) v.inv;
    senders = λ q. ground (arith, v.senders q);
    positive = ground (arith, v.positive);
    tracked = λ j w c e. ground (arith, cleanup_manager n, v.tracked j w c);
  }

  cleanup-IsLive : {n : Node} → IsLive hash32 p n → IsLive hash32 p (cleanup p n).0
  unfolding cleanup
  cleanup-IsLive {n} v = record {
    table = remove-Inv (n.heap p).user_id p v.table;
    rooms = cleanup-Tracked n v.rooms;
    real = v.real;
    made = ground (arith, v.made);
  }

  -- The client's channel is in no room, and the user is not registered with this client.
  pub record IsGone (n : Node) : Type 0 where
    pub rooms : (j w : ℕ) → member_of hash32 j w n.manager ≢ some p
    pub table : (u : ℕ) → lookup u n.clients ≢ some p
    pub shut : (n.heap p).once ≡ true

  cleanup-IsGone :
      (n : Node)
      → IsLive hash32 p n
      → ((j w : ℕ) → member_of hash32 j w n.manager ≢ some p)
      → IsGone (cleanup p n).0
  unfolding cleanup
  cleanup-IsGone n v out = record {
    rooms = λ j w e. out j w (ground (arith, cleanup_manager n));
    table = λ u e.
        ground
          (arith, lookup-delete (n.heap p).user_id u n.clients, v.table.registered u p, v.real);
    shut = ground (arith, v.table.open_registered p v.real v.made, v.real);
  }

  -- A connection that reads ordinary messages and then an error ends: no room holds its channel any
  -- more, the table does not lead to it, and it is closed. The invariants of the node hold on.
  pub read_pump_ends :
      (ms : List Incoming) {n : Node}
      → IsOrdinary ms
      → IsLive hash32 p n
      → (n' : Node) × (read_pump hash32 p (ms ++ read_error ∷ []) n ≡ ended n')
        × IsGone n'
        × IsLive hash32 p n'
  unfolding read_pump
  read_pump_ends [] {n} o v =
      let left = leave-IsLive v in
      (
        (cleanup p (leave_all_rooms hash32 p n)).0,
        refl,
        cleanup-IsGone (leave_all_rooms hash32 p n) left
            (λ j w e. ground (arith, leave_all_rooms_lem hash32 p j w v.rooms v.real)),
        cleanup-IsLive left,
      )
  read_pump_ends (read_error ∷ ms) o v = absurd o
  read_pump_ends (bad_request ∷ ms) o v = read_pump_ends ms o v
  read_pump_ends (unmarshalled none ∷ ms) o v = absurd o
  read_pump_ends (unmarshalled (some cmd) ∷ ms) o v = read_pump_ends ms o (command-IsLive cmd v)

  -- A message that leaves the pointer at nil panics, whatever ordinary messages came before it.
  pub read_pump_null :
      (ms rest : List Incoming) (n : Node)
      → IsOrdinary ms
      → read_pump hash32 p (ms ++ unmarshalled none ∷ rest) n ≡ panicked
  unfolding read_pump
  read_pump_null [] rest n o = refl
  read_pump_null (read_error ∷ ms) rest n o = absurd o
  read_pump_null (bad_request ∷ ms) rest n o = read_pump_null ms rest n o
  read_pump_null (unmarshalled none ∷ ms) rest n o = absurd o
  read_pump_null (unmarshalled (some cmd) ∷ ms) rest n o =
      read_pump_null ms rest (run_command hash32 p cmd n) o

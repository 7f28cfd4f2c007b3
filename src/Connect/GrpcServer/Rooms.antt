-- ===== src/Connect/GrpcServer/Rooms.antt =====
-- Whom a broadcast to a room reaches on this node.
use likegochat.Connect.Chan.{has_room}
use likegochat.Connect.RoomManager.{find_room}
use likegochat.Prelude.{
  ℕ, ◌≡◌, ◌≢◌, List, some, arith, if◌then◌else◌, Option-cases, ◌==◌, ◌||◌, inl, not, inr, ◌∙◌, ◌++◌,
  ◌∷◌, [],
}
use likegochat.Connect.RoomManager.Broadcast.{
  broadcast_missing, broadcast_found, member_of_missing, member_of_found,
}
use likegochat.Connect.Client.{Node}
use likegochat.Connect.Client.Membership.{Tracked}
use likegochat.Connect.RoomManager.Members.{member_of}
use likegochat.Connect.Room.Broadcast.{broadcast_delivers, broadcast_spares}
use likegochat.Connect.GrpcServer.{BroadcastRoomRequest, grpc_broadcast_room, not, []}
use likegochat.Connect.Client.Registered.{SameTable}
use likegochat.Connect.Chan.{IsBounded}
use likegochat.Connect.RoomManager.Broadcast.{broadcast_room-IsBounded}
use likegochat.Prelude.{refl}

module _ (hash32 : List ℕ → ℕ) where
  -- A member of the room gets one copy of the payload at the end of its buffer, unless it is the
  -- sender or its buffer is full.
  pub broadcast_reaches_members :
      (req : BroadcastRoomRequest) (n : Node) (w c : ℕ)
      → Tracked hash32 n
      → member_of hash32 req.room_id w n.manager ≡ some c
      → (grpc_broadcast_room hash32 req n).0.chans c ≡ (
          if (w == req.from_user_id) || not (has_room n.chans c)
          then n.chans c
          else n.chans c ++ req.payload ∷ [])
  unfolding grpc_broadcast_room
  broadcast_reaches_members req n w c v e = elim (Option-cases (find_room hash32 id n.manager)) [
    | inl f ↦ absurd (ground (arith, member_of_missing hash32 id n.manager w f))
    | inr (r, f) ↦ rw (broadcast_found hash32 id n.manager from req.payload n.chans r f) (
        broadcast_delivers from req.payload (n.manager.heap r) n.chans w c (v.inv.consistent r)
          (ground (arith, v.tracked id w c e))
          (
            rw (← member_of_found hash32 id n.manager w r f) e,
            λ u g. ground (
              arith,
              v.tracked id w c e,
              v.tracked id u c (member_of_found hash32 id n.manager u r f ∙ g),
            ),
          ))
  ]
    where
      id : ℕ
      id = req.room_id

      from : ℕ
      from = req.from_user_id

  -- Nobody outside the room gets anything.
  pub broadcast_spares_others :
      (req : BroadcastRoomRequest) (n : Node) (c : ℕ)
      → Tracked hash32 n
      → ((w : ℕ) → member_of hash32 req.room_id w n.manager ≢ some c)
      → (grpc_broadcast_room hash32 req n).0.chans c ≡ n.chans c
  unfolding grpc_broadcast_room
  broadcast_spares_others req n c v out = elim (Option-cases (find_room hash32 id n.manager)) [
    | inl f ↦ rw (broadcast_missing hash32 id n.manager from req.payload n.chans f)
    | inr (r, f) ↦ rw (broadcast_found hash32 id n.manager from req.payload n.chans r f) (
        broadcast_spares from req.payload (n.manager.heap r) n.chans c (v.inv.consistent r)
          (λ u g. absurd (out u (member_of_found hash32 id n.manager u r f ∙ g))))
  ]
    where
      id : ℕ
      id = req.room_id

      from : ℕ
      from = req.from_user_id

  -- A broadcast changes nothing but the buffers.
  pub broadcast-SameTable :
      (req : BroadcastRoomRequest) (n : Node) → SameTable n (grpc_broadcast_room hash32 req n).0
  unfolding grpc_broadcast_room
  broadcast-SameTable req n = record {
    clients = refl;
    next = refl;
    users = λ q. refl;
    onces = λ q. refl;
    counts = λ q. refl;
  }

  pub broadcast-Tracked :
      (req : BroadcastRoomRequest) {n : Node}
      → Tracked hash32 n
      → Tracked hash32 (grpc_broadcast_room hash32 req n).0
  unfolding grpc_broadcast_room
  broadcast-Tracked req v = record {
    inv = v.inv;
    senders = v.senders;
    positive = v.positive;
    tracked = v.tracked;
  }

  pub grpc_broadcast_room-IsBounded :
      (req : BroadcastRoomRequest) (n : Node)
      → IsBounded n.chans
      → IsBounded (grpc_broadcast_room hash32 req n).0.chans
  unfolding grpc_broadcast_room
  grpc_broadcast_room-IsBounded req n b =
      broadcast_room-IsBounded hash32 req.room_id n.manager req.from_user_id req.payload n.chans b

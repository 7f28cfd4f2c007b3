-- ===== src/Task/Room/Delivery.antt =====
-- A room message reaches the room's members on every connect node, where the network works.
use likegochat.Connect.GrpcServer.Rooms.{broadcast_reaches_members}
use likegochat.Connect.Chan.{has_room}
use likegochat.Prelude.Dicts.{find}
use likegochat.Connect.RoomManager.Members.{member_of}
use likegochat.Connect.Client.Membership.{Tracked}
use likegochat.Task.Routing.Calm.{load_group_node_ids_calm}
use likegochat.Prelude.{
  ℕ, ◌≡◌, refl, ◌==◌, ◌||◌, not, Bool, true, false, List, [], ◌∷◌, ◌++◌, Option, some, is_empty,
  if◌then◌else◌, arith, Bool-cases, inl, inr,
}
use likegochat.Prelude.Bytes.{Bytes, bytes_eq, bytes_eq_iff}
use likegochat.Redis.{Redis, ok, mem_bytes}
use likegochat.Connect.Client.{Node}
use likegochat.Connect.GrpcServer.{grpc_broadcast_room}
use likegochat.Logic.ChatServer.{RoomMessage}
use likegochat.Task.Consumer.{Task, ConsumerMessage, with_client}
use likegochat.Task.Consumer.Calls.{IsUp}
use likegochat.Task.Consumer.Nodes.{
  IsCalm, wait_token_calm, with_client-IsCalm, with_client-IsUp, with_client-own,
}
use likegochat.Task.Routing.{connect_nodes_key}
use likegochat.Task.Room.{
  broadcast_request, broadcast_each, handle_room_broadcast, handle_room_message,
}

-- No address stands twice in a list.
abbrev pub AreDistinct : List Bytes → Type 0
AreDistinct [] = Unit {0}
AreDistinct (x ∷ xs) = (mem_bytes x xs ≡ false) × AreDistinct xs

module _ (r : Redis) (dial : Bytes → Bool) (hash32 : List ℕ → ℕ) where
  abbrev pub broadcast_at : RoomMessage → Bytes → Node → Node
  broadcast_at gm payload n = (grpc_broadcast_room hash32 (broadcast_request gm payload) n).0

  broadcast_each_next :
      (gm : RoomMessage) (payload sid : Bytes) (rest : List Bytes) (t : Task r)
      → IsCalm r dial t
      → broadcast_each r dial hash32 gm payload (sid ∷ rest) t
        ≡ broadcast_each r dial hash32 gm payload rest
            (with_client r dial (grpc_broadcast_room hash32 (broadcast_request gm payload)) sid t).0
  unfolding broadcast_each
  broadcast_each_next gm payload sid rest t c = ground (arith, wait_token_calm r dial t c.1)

  broadcast_each_none :
      (gm : RoomMessage) (payload : Bytes) (nodes : List Bytes) (t : Task r)
      → is_empty nodes ≡ true
      → broadcast_each r dial hash32 gm payload nodes t ≡ (t, ok tt)
  unfolding broadcast_each
  broadcast_each_none gm payload [] t h = refl
  broadcast_each_none gm payload (k ∷ rest) t h = cc

  broadcast_each-spares :
      (gm : RoomMessage) (payload sid : Bytes) (n : Node) (nodes : List Bytes) (t : Task r)
      → IsCalm r dial t
      → mem_bytes sid nodes ≡ false
      → IsUp r dial sid n t
      → IsUp r dial sid n (broadcast_each r dial hash32 gm payload nodes t).0
  broadcast_each-spares gm payload sid n [] t c h up = unfold broadcast_each in up
  broadcast_each-spares gm payload sid n (k ∷ rest) t c h up =
      let f = grpc_broadcast_room hash32 (broadcast_request gm payload) in
      rw (broadcast_each_next gm payload k rest t c) (
        broadcast_each-spares gm payload sid n rest (with_client r dial f k t).0
          (with_client-IsCalm r dial f k t c) (ground (arith, h))
          (with_client-IsUp r dial f k sid n t (ground (arith, h)) up))

  broadcast_each-own :
      (gm : RoomMessage) (payload sid : Bytes) (n : Node) (nodes : List Bytes) (t : Task r)
      → IsCalm r dial t
      → AreDistinct nodes
      → mem_bytes sid nodes ≡ true
      → IsUp r dial sid n t
      → IsUp r dial sid
          (broadcast_at gm payload n)
          (broadcast_each r dial hash32 gm payload nodes t).0
  broadcast_each-own gm payload sid n [] t c d h up = cc
  broadcast_each-own gm payload sid n (k ∷ rest) t c d h up =
      let f = grpc_broadcast_room hash32 (broadcast_request gm payload) in
      let calm = with_client-IsCalm r dial f k t c in
      rw (broadcast_each_next gm payload k rest t c) (elim (Bool-cases (bytes_eq k sid)) [
        | inr ne ↦
            broadcast_each-own gm payload sid n rest (with_client r dial f k t).0 calm d.1
              (ground (arith, h, ne)) (with_client-IsUp r dial f k sid n t ne up)
        | inl s ↦
            let same : k ≡ sid = (bytes_eq_iff k sid).0 s in
            broadcast_each-spares gm payload sid (f n).0 rest (with_client r dial f k t).0 calm
              (rw (← same) d.0) (rw same (with_client-own r dial f sid n t up c.0))
      ])

  -- Where the network works, a room message makes each registered node that is up broadcast it once,
  -- and no other node.
  pub handle_room_broadcast-own :
      (gm : RoomMessage) (payload server_id : Bytes) (n : Node) (t : Task r)
      → t.world.net ≡ []
      → IsCalm r dial t
      → AreDistinct (r.members connect_nodes_key t.world.db)
      → IsUp r dial server_id n t
      → IsUp r dial server_id
          (if mem_bytes server_id (r.members connect_nodes_key t.world.db)
            then broadcast_at gm payload n
            else n)
          (handle_room_broadcast r dial hash32 gm payload t).0
  unfolding handle_room_broadcast
  handle_room_broadcast-own gm payload sid n t net c d up =
      let nodes = r.members connect_nodes_key t.world.db in
      let loaded = load_group_node_ids_calm r t.world net in
      let there : (handle_room_broadcast r dial hash32 gm payload t).0
          ≡ (broadcast_each r dial hash32 gm payload nodes t).0 =
        elim (Bool-cases (is_empty nodes)) [
          | inl e ↦ ground (arith, loaded, e, broadcast_each_none gm payload nodes t)
          | inr e ↦ ground (arith, loaded, e)
        ] in
      rw there (elim (Bool-cases (mem_bytes sid nodes)) [
        | inl m ↦ rw m (broadcast_each-own gm payload sid n nodes t c d m up)
        | inr m ↦ rw m (broadcast_each-spares gm payload sid n nodes t c m up)
      ])

  module _ (unmarshal : Bytes → Option RoomMessage) where
    -- Where the network works, the set of nodes has no address twice and the rooms of the node hold the
    -- channels of its clients, a room message that can be decoded puts one copy of its payload at the end of the buffer of
    -- each member of the room whose node is registered and up, unless the member is the sender or its
    -- buffer is full.
    pub handle_room_message-reaches :
        (m : ConsumerMessage) (gm : RoomMessage) (server_id : Bytes) (n : Node) (w c : ℕ)
        (t : Task r)
        → unmarshal m.value ≡ some gm
        → t.world.net ≡ []
        → IsCalm r dial t
        → AreDistinct (r.members connect_nodes_key t.world.db)
        → mem_bytes server_id (r.members connect_nodes_key t.world.db) ≡ true
        → IsUp r dial server_id n t
        → Tracked hash32 n
        → member_of hash32 gm.room_id w n.manager ≡ some c
        → ((n' : Node) × (find server_id (handle_room_message r dial hash32 unmarshal m t).0.nodes
              ≡ some n')
            × (n'.chans c ≡ (
                if (w == gm.from_user_id) || not (has_room n.chans c)
                then n.chans c
                else n.chans c ++ m.value ∷ [])))
    unfolding handle_room_message
    handle_room_message-reaches m gm sid n w c t e net calm d reg up tracked mem =
        let after = handle_room_broadcast-own gm m.value sid n t net calm d up in
        (
          broadcast_at gm m.value n,
          rw (handle_room_message, e) (ground (arith, after.running, reg)),
          broadcast_reaches_members hash32 (broadcast_request gm m.value) n w c tracked mem,
        )

-- ===== src/Task/Chat/Delivery.antt =====
-- Where a message from one user to another arrives, from the call that sends it.
use mathlib.Core.List.{append-nil, append_assoc}
use likegochat.Prelude.{
  ℕ, ◌≡◌, sym, Bool, true, false, List, [], ◌∷◌, ◌++◌, Option, some, is_empty, arith, lookup, map,
  Option-cases, inl, inr, ◌∙◌, ap,
}
use likegochat.Prelude.Bytes.{Bytes, bytes_eq_refl}
use likegochat.Prelude.Dicts.{find, put, find-put}
use likegochat.Redis.{Redis, ok, Result-cases}
use likegochat.Connect.Chan.{has_room}
use likegochat.Connect.Client.{Node}
use likegochat.Connect.Client.Registered.{Inv}
use likegochat.Connect.GrpcServer.{PushMsgRequest, push_msg}
use likegochat.Connect.GrpcServer.Pushes.{push_msg_lem}
use likegochat.Connect.Registry.Routes.{route}
use likegochat.Logic.ChatServer.{Message}
use likegochat.Task.Consumer.{Task, ConsumerMessage, get_route, mark_message}
use likegochat.Task.Consumer.Calls.{IsUp, get_route_lem, push_to_user_marked, push_to_user_nodes}
use likegochat.Task.Chat.{push_chat, consume_chat, consume_chat_claim, push_routed}

module _ (r : Redis) (dial : Bytes → Bool) (prefers_done : ℕ → Bool) where
  push_chat_marked :
      (msg : Message) (payload : Bytes) (t : Task r)
      → (push_chat r dial prefers_done msg payload t).marked ≡ t.marked
  unfolding push_chat push_routed
  push_chat_marked msg payload t =
      let u = msg.to_user_id in
      let w = get_route r u t.world in
      elim (Result-cases w.1) [
        | inr (e, h) ↦ ground (arith, h)
        | inl (found, h) ↦ elim (Option-cases found) [
          | inl g ↦ ground (arith, h, g)
          | inr (sid, g) ↦ ground (
            arith,
            h,
            g,
            push_to_user_marked r dial prefers_done sid u payload msg.msg_type
                (record t { world = w.0 }),
          )
        ]
      ]

  module _ (unmarshal : Bytes → Option Message) where
    consume_chat_marked :
        (m : ConsumerMessage) (t : Task r)
        → (consume_chat r dial prefers_done unmarshal m t).marked ≡ t.marked ++ m.offset ∷ []
    unfolding consume_chat mark_message
    consume_chat_marked m t = elim (Option-cases (unmarshal m.value)) [
      | inl e ↦ ground (arith, e)
      | inr (msg, e) ↦ ground (arith, e, push_chat_marked msg m.value t)
    ]

    -- Every message of a claim is marked, in order, whatever becomes of it.
    pub consume_chat_claim_marked :
        (ms : List ConsumerMessage) (t : Task r)
        → (consume_chat_claim r dial prefers_done unmarshal ms t).marked
          ≡ t.marked ++ map (λ m. m.offset) ms
    unfolding consume_chat_claim
    consume_chat_claim_marked [] t = sym (append-nil t.marked)
    consume_chat_claim_marked (m ∷ ms) t =
        consume_chat_claim_marked ms (consume_chat r dial prefers_done unmarshal m t)
        ∙ ap (λ l. l ++ map (λ m. m.offset) ms) (consume_chat_marked m t)
        ∙ append_assoc t.marked (m.offset ∷ []) (map (λ m. m.offset) ms)

  -- A user whose route names a node, which is up and has the user's connection, with room in its
  -- buffer, while the network works.
  pub record IsReachable (u : ℕ) (server_id : Bytes) (n : Node) (t : Task r) : Type 0 where
    pub routed : route r u t.world.db ≡ some server_id
    pub valid : is_empty server_id ≡ false
    pub calm : (t.world.net ≡ []) × (t.rpc ≡ [])
    pub up : IsUp r dial server_id n t
    pub sound : Inv n
    pub client : ℕ
    pub connected : lookup u n.clients ≡ some client
    pub room : has_room n.chans (n.heap client).send ≡ true

  -- What a node's user has got: `payload`, at the end of the buffer.
  pub record Received (payload : Bytes) (server_id : Bytes) (n : Node) (client : ℕ) (t : Task r)
      : Type 0 where
    pub node : Node
    pub there : find server_id t.nodes ≡ some node
    pub last : node.chans (n.heap client).send ≡ n.chans (n.heap client).send ++ payload ∷ []

  push_chat_nodes :
      (msg : Message) (payload server_id : Bytes) (n : Node) (t : Task r)
      → IsReachable msg.to_user_id server_id n t
      → (push_chat r dial prefers_done msg payload t).nodes
        ≡ put server_id
            (push_msg prefers_done
              (record { to_user_id = msg.to_user_id; payload = payload; msg_type = msg.msg_type })
              n).0
            t.nodes
  unfolding push_chat push_routed
  push_chat_nodes msg payload sid n t h =
      let read =
        get_route_lem r dial msg.to_user_id t.world h.calm.0
        ∙ ap (λ found. (t.world, ok found)) h.routed in
      ap (λ x. (push_routed r dial prefers_done msg payload x t).nodes) read
      ∙ rw h.valid (
          push_to_user_nodes r dial prefers_done sid msg.to_user_id payload msg.msg_type n t h.up
            h.calm.1)

  module _ (unmarshal : Bytes → Option Message) where
    -- A message from the queue to a user who is reachable arrives at the end of the user's buffer.
    pub consume_chat-Received :
        (m : ConsumerMessage) (msg : Message) (server_id : Bytes) (n : Node) (t : Task r)
        → unmarshal m.value ≡ some msg
        → (h : IsReachable msg.to_user_id server_id n t)
        → Received m.value server_id n h.client (consume_chat r dial prefers_done unmarshal m t)
    unfolding consume_chat mark_message
    consume_chat-Received m msg sid n t e h =
        let u = msg.to_user_id in
        let request : PushMsgRequest = record {
          to_user_id = u;
          payload = m.value;
          msg_type = msg.msg_type;
        } in
        let effect = push_msg_lem prefers_done request n h.client h.sound h.connected in
        record {
          node = (push_msg prefers_done request n).0;
          there =
              ap (find sid) (rw (consume_chat, e) (push_chat_nodes msg m.value sid n t h))
              ∙ find-put sid sid (push_msg prefers_done request n).0 t.nodes
              ∙ ground (arith, bytes_eq_refl sid);
          last = ground (arith, effect.1 (n.heap h.client).send, h.room);
        }

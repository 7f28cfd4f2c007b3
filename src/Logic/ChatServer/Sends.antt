-- ===== src/Logic/ChatServer/Sends.antt =====
-- What a call that sends a message puts on the queue.
use likegochat.Connect.RoomManager.{is_nonpositive}
use likegochat.Logic.GroupCache.Answers.{is_group_member_lem}
use likegochat.Logic.GroupCache.{is_group_member}
use likegochat.Logic.MessageId.{next_message_id, next_message_id_lem, next_counter}
use likegochat.Prelude.{
  ℕ, ◌≡◌, ◌≢◌, List, [], ◌∷◌, ◌++◌, Option, some, Bool, ◌⊎◌, Option-cases, inl, inr, Bool-cases,
  arith, ◌<◌, ◌==◌, ◌^◌, ◌%◌, ◌*◌, ◌+◌, none, false, true, mem, refl, ◌||◌, is_empty, not,
}
use likegochat.Prelude.Bytes.{Bytes}
use likegochat.Prelude.Decimal.{format_int}
use likegochat.Redis.{Redis, Result, ok, err}
use likegochat.Logic.Error.{Error}
use likegochat.Logic.ChatServer.{
  Outgoing, Producer, Logic, ChatServer, produce, send_message, send_as_member, send_group_message,
  send_room_message, SendMessageReply, SendMessageRequest, SendSmallGroupMessageRequest,
  SendRoomMessageRequest, queue_failed, marshal_failed, next_message_id, self_message,
  ProducerMessage, chat_message, chat, group, false, true, group_message, is_group_member,
  after_check, is_nonpositive, is_empty, not, room_message, group_id_invalid, content_empty,
  topic_missing, store_missing,
}
use likegochat.Logic.GroupCache.Coherence.{IsCoherent}

module _ (r : Redis) (kafka : Producer) (marshal : Outgoing → Option Bytes) where
  -- The queue has got exactly one message more: `msg`, under the topic, with the target as its key.
  pub record IsQueued (topic : Bytes) (target : ℕ) (msg : Outgoing) (k k' : kafka.State)
      : Type 0 where
    pub payload : Bytes
    pub encoded : marshal msg ≡ some payload
    pub appended :
        kafka.log k'
        ≡ kafka.log k ++ record { topic = topic; key = format_int target; value = payload } ∷ []

  -- A call either succeeds and has queued its message, or fails and has queued nothing, or the
  -- producer has failed.
  abbrev pub Ends :
      Bytes
      → ℕ
      → Outgoing
      → SendMessageReply
      → kafka.State
      → Logic r kafka marshal × Result Error SendMessageReply
      → Type 0
  Ends topic target msg reply k p =
      ((p.1 ≡ ok reply) × IsQueued topic target msg k p.0.producer)
      ⊎ (((e : Error) × (p.1 ≡ err e)) × (kafka.log p.0.producer ≡ kafka.log k))
      ⊎ (p.1 ≡ err queue_failed)

  produce_lem :
      (topic : Bytes) (target : ℕ) (msg : Outgoing) (reply : SendMessageReply)
      (l : Logic r kafka marshal)
      → Ends topic target msg reply l.producer (produce r kafka marshal topic target msg reply l)
  unfolding produce
  produce_lem topic target msg reply l = elim (Option-cases (marshal msg)) [
    | inl e ↦ inr (inl ((marshal_failed, ground (arith, e)), ground (arith, e)))
    | inr (p, e) ↦
        let sent : ProducerMessage = record { topic = topic; key = format_int target; value = p } in
        elim (Bool-cases (kafka.send_message sent l.producer).1) [
          | inl b ↦ inl (
            ground (arith, e, b),
            record {
              payload = p;
              encoded = e;
              appended = ground (arith, e, b, kafka.acknowledged sent l.producer b);
            },
          )
          | inr b ↦ inr (inr (ground (arith, e, b)))
        ]
  ]

  -- A message to oneself is refused and leaves everything.
  pub send_message_self :
      (s : ChatServer) (now : ℕ) (req : SendMessageRequest) (l : Logic r kafka marshal)
      → req.from_user_id ≡ req.to_user_id
      → send_message r kafka marshal s now req l ≡ (l, err self_message)
  unfolding send_message
  send_message_self s now req l e = ground (arith, e)

  pub send_message_produces :
      (s : ChatServer) (now : ℕ) (req : SendMessageRequest) (l : Logic r kafka marshal)
      → req.from_user_id ≢ req.to_user_id
      → Ends s.chat_topic req.to_user_id
          (chat_message (next_message_id l.local_msg_seq now).1 now req)
          (record { msg_id = (next_message_id l.local_msg_seq now).1; timestamp = now })
          l.producer
          (send_message r kafka marshal s now req l)
  unfolding send_message
  send_message_produces s now req l ne =
      let (seq, id) = next_message_id l.local_msg_seq now in
      let goes : (req.from_user_id == req.to_user_id) ≡ false = ground (arith, ne) in
      rw goes (
        produce_lem s.chat_topic req.to_user_id (chat_message id now req) _
          (record l { local_msg_seq = seq }))

  -- What a call with a message to another user comes to: the message is written out, with the id that
  -- the clock and the counter give.
  pub record Sent (s : ChatServer) (now : ℕ) (req : SendMessageRequest) (l : Logic r kafka marshal)
      (p : Logic r kafka marshal × Result Error SendMessageReply) : Type 0 where
    pub msg_id : ℕ
    pub next_id : msg_id ≡ (now % 2 ^ 44) * 2 ^ 20 + (l.local_msg_seq + 1) % 2 ^ 20
    pub counted : p.0.local_msg_seq ≡ (l.local_msg_seq + 1) % 2 ^ 64
    pub world : p.0.world ≡ l.world
    pub message : Outgoing
    pub written :
        message
        ≡ chat (record {
          msg_id = msg_id;
          from_user_id = req.from_user_id;
          to_user_id = req.to_user_id;
          content = req.content;
          msg_type = req.msg_type;
          create_time = now;
          client_msg_id = req.cliet_msg_id;
        })
    pub not_encoded :
        marshal message ≡ none → (p.1 ≡ err marshal_failed) × (p.0.producer ≡ l.producer)
    pub acknowledged :
        (payload : Bytes)
        → marshal message ≡ some payload
        → (kafka.send_message
            (record { topic = s.chat_topic; key = format_int req.to_user_id; value = payload })
            l.producer).1
          ≡ true
        → (p.1 ≡ ok (record { msg_id = msg_id; timestamp = now }))
          × (kafka.log p.0.producer
              ≡ kafka.log l.producer
                ++ record { topic = s.chat_topic; key = format_int req.to_user_id; value = payload }
                  ∷ [])
    pub failed :
        (payload : Bytes)
        → marshal message ≡ some payload
        → (kafka.send_message
            (record { topic = s.chat_topic; key = format_int req.to_user_id; value = payload })
            l.producer).1
          ≡ false
        → p.1 ≡ err queue_failed

  -- A message to another user takes the next id and moves the counter on, and leaves Redis. If it
  -- cannot be encoded, or the producer fails, the call fails; otherwise the call replies with the id, and
  -- the queue has the message last, under the recipient's key, with the sender, the recipient and the
  -- content of the request.
  pub send_message-Ends :
      (s : ChatServer) (now : ℕ) (req : SendMessageRequest) (l : Logic r kafka marshal)
      → req.from_user_id ≢ req.to_user_id
      → Sent s now req l (send_message r kafka marshal s now req l)
  unfolding send_message produce
  send_message-Ends s now req l ne =
      let (seq, id) = next_message_id l.local_msg_seq now in
      let msg = chat_message id now req in
      let goes : (req.from_user_id == req.to_user_id) ≡ false = ground (arith, ne) in
      let sent = λ (payload : Bytes).
        kafka.acknowledged
          (record { topic = s.chat_topic; key = format_int req.to_user_id; value = payload })
          l.producer in
      record {
        msg_id = id;
        next_id = next_message_id_lem l.local_msg_seq now;
        counted =
            ground (arith, goes, Option-cases (marshal msg), next_counter l.local_msg_seq now);
        world = ground (arith, goes, Option-cases (marshal msg));
        message = msg;
        written = refl;
        not_encoded = λ e. (ground (arith, goes, e), ground (arith, goes, e));
        acknowledged =
            λ payload e b. (ground (arith, goes, e, b), ground (arith, goes, e, b, sent payload b));
        failed = λ payload e b. ground (arith, goes, e, b);
      }

  passes_guards :
      (s : ChatServer) (now : ℕ) (req : SendSmallGroupMessageRequest) (l : Logic r kafka marshal)
      (reply : SendMessageReply)
      → s.has_store ≡ true
      → (send_group_message r kafka marshal s now req l).1 ≡ ok reply
      → let checked = is_group_member r s.group_members req.group_id req.from_user_id l.world in
        send_group_message r kafka marshal s now req l
        ≡ after_check r kafka marshal s now req (record l { world = checked.0 }) checked.1
  unfolding send_group_message
  passes_guards s now req l reply store h = ground (arith, store, h)

  passes_check :
      (s : ChatServer) (now : ℕ) (req : SendSmallGroupMessageRequest) (l : Logic r kafka marshal)
      (reply : SendMessageReply) (x : Result Error Bool)
      → (after_check r kafka marshal s now req l x).1 ≡ ok reply
      → (x ≡ ok true)
        × (after_check r kafka marshal s now req l x ≡ send_as_member r kafka marshal s now req l)
  unfolding after_check
  passes_check s now req l reply (err e) h = absurd (ground (arith, h))
  passes_check s now req l reply (ok true) h = (refl, refl)
  passes_check s now req l reply (ok false) h = absurd (ground (arith, h))

  member_sends :
      (s : ChatServer) (now : ℕ) (req : SendSmallGroupMessageRequest) (l : Logic r kafka marshal)
      (reply : SendMessageReply)
      → (send_as_member r kafka marshal s now req l).1 ≡ ok reply
      → (reply.msg_id ≡ (next_message_id l.local_msg_seq now).1)
        × IsQueued s.group_chat_topic req.group_id
            (group_message reply.msg_id now req)
            l.producer
            (send_as_member r kafka marshal s now req l).0.producer
  unfolding send_as_member
  member_sends s now req l reply h =
      let (seq, id) = next_message_id l.local_msg_seq now in
      let sent : SendMessageReply = record { msg_id = id; timestamp = now } in
      elim (produce_lem s.group_chat_topic req.group_id (group_message id now req) sent
        (record l { local_msg_seq = seq })) [
          | inl q ↦ let same : reply.msg_id ≡ id = ground (arith, q.0, h) in (same, rw same q.1)
          | inr (inl q) ↦ absurd (ground (arith, q.0.1, h))
          | inr (inr q) ↦ absurd (ground (arith, q, h))
        ]

  -- With a store, whose query gives the table, and a coherent cache, for a group id below 2^64 and a
  -- user id below 2^63: a group message whose call succeeds has a sender who is in the group by the
  -- table, has the next id, and is the one message more on the queue, under the group's key, with the
  -- sender, the group and the content of the request.
  pub send_group_message_lem :
      (rows : ℕ → List ℕ) (s : ChatServer) (now : ℕ) (req : SendSmallGroupMessageRequest)
      (l : Logic r kafka marshal) (reply : SendMessageReply)
      → req.group_id < 2 ^ 64
      → req.from_user_id < 2 ^ 63
      → IsCoherent r rows l.world.db
      → s.has_store ≡ true
      → s.group_members ≡ (λ g. some (rows g))
      → (send_group_message r kafka marshal s now req l).1 ≡ ok reply
      → (mem req.from_user_id (rows req.group_id) ≡ true)
        × (reply.msg_id ≡ (next_message_id l.local_msg_seq now).1)
        × IsQueued s.group_chat_topic req.group_id
            (group (record {
              msg_id = reply.msg_id;
              from_user_id = req.from_user_id;
              group_id = req.group_id;
              content = req.content;
              msg_type = req.msg_type;
              create_time = now;
              client_msg_id = req.client_msg_id;
            }))
            l.producer
            (send_group_message r kafka marshal s now req l).0.producer
  send_group_message_lem rows s now req l reply hg hu c store table h =
      let checked = is_group_member r s.group_members req.group_id req.from_user_id l.world in
      let guards = passes_guards s now req l reply store h in
      let member =
        passes_check s now req (record l { world = checked.0 }) reply checked.1
          (ground (arith, guards, h)) in
      let sends =
        member_sends s now req (record l { world = checked.0 }) reply
          (ground (arith, guards, member.1, h)) in
      (
        ground (
          arith,
          member.0,
          table,
          is_group_member_lem r rows req.group_id req.from_user_id l.world true hg hu c,
        ),
        sends.0,
        rw (guards, member.1) sends.1,
      )

  -- The request, or the server's configuration, is not in order.
  abbrev pub is_refused : ChatServer → SendRoomMessageRequest → Bool
  is_refused s req =
      is_nonpositive req.room_id
      || is_empty req.content
      || is_empty s.romm_chat_topic
      || not s.has_store

  -- A message to a room that is refused leaves everything.
  pub send_room_message_refused :
      (s : ChatServer) (now : ℕ) (req : SendRoomMessageRequest) (l : Logic r kafka marshal)
      → is_refused s req ≡ true
      → (e : Error) × (send_room_message r kafka marshal s now req l ≡ (l, err e))
  unfolding send_room_message
  send_room_message_refused s now req l h = elim (Bool-cases (is_nonpositive req.room_id)) [
    | inl a ↦ (group_id_invalid, ground (arith, a))
    | inr a ↦ elim (Bool-cases (is_empty req.content)) [
      | inl b ↦ (content_empty, ground (arith, a, b))
      | inr b ↦ elim (Bool-cases (is_empty s.romm_chat_topic)) [
        | inl c ↦ (topic_missing, ground (arith, a, b, c))
        | inr c ↦ (store_missing, ground (arith, a, b, c, h))
      ]
    ]
  ]

  room_passes :
      (s : ChatServer) (now : ℕ) (req : SendRoomMessageRequest) (l : Logic r kafka marshal)
      → is_refused s req ≡ false
      → let (seq, id) = next_message_id l.local_msg_seq now in
        send_room_message r kafka marshal s now req l
        ≡ produce r kafka marshal s.romm_chat_topic req.room_id
            (room_message id now req)
            (record { msg_id = id; timestamp = now })
            (record l { local_msg_seq = seq })
  unfolding send_room_message
  room_passes s now req l h = ground (arith, h)

  -- A message to a room that is not refused takes the next id, and its call queues it under the
  -- room's key and replies with that id, or fails.
  pub send_room_message-Ends :
      (s : ChatServer) (now : ℕ) (req : SendRoomMessageRequest) (l : Logic r kafka marshal)
      → is_refused s req ≡ false
      → Ends s.romm_chat_topic req.room_id
          (room_message (next_message_id l.local_msg_seq now).1 now req)
          (record { msg_id = (next_message_id l.local_msg_seq now).1; timestamp = now })
          l.producer
          (send_room_message r kafka marshal s now req l)
  send_room_message-Ends s now req l h =
      let (seq, id) = next_message_id l.local_msg_seq now in
      rw (room_passes s now req l h) (
        produce_lem s.romm_chat_topic req.room_id (room_message id now req) _
          (record l { local_msg_seq = seq }))

-- ===== src/Task/Chat/EndToEnd.antt =====
-- A message from the call that sends it, over the queue, to the recipient's buffer.
use likegochat.Prelude.Decimal.{format_int}
use likegochat.Prelude.{
  ℕ, ◌≡◌, [], ◌∷◌, ◌++◌, Option, some, Bool, arith, inl, inr, Bool-cases, ◌==◌, refl,
}
use likegochat.Prelude.Bytes.{Bytes}
use likegochat.Redis.{Redis, ok}
use likegochat.Connect.Client.{Node}
use likegochat.Logic.ChatServer.{
  ChatServer, Producer, Logic, Outgoing, Message, ProducerMessage, SendMessageRequest,
  SendMessageReply, chat_message, send_message, chat,
}
use likegochat.Logic.ChatServer.Sends.{send_message_produces, IsQueued, send_message_self}
use likegochat.Task.Consumer.{Task}
use likegochat.Task.Chat.{consume_chat}
use likegochat.Task.Chat.Delivery.{IsReachable, Received, consume_chat-Received}

module _ (r : Redis) (kafka : Producer) (marshal : Outgoing → Option Bytes) (dial : Bytes → Bool)
    (prefers_done : ℕ → Bool) (unmarshal : Bytes → Option Message) where
  -- The queue has got one message, which tells the recipient what the sender wrote, and whoever
  -- consumes it puts it into the recipient's buffer.
  pub record Arrives (req : SendMessageRequest) (k k' : kafka.State) (server_id : Bytes) (n : Node)
      (t : Task r) (client : ℕ) : Type 0 where
    pub queued : ProducerMessage
    pub appended : kafka.log k' ≡ kafka.log k ++ queued ∷ []
    pub message : Message
    pub decoded : unmarshal queued.value ≡ some message
    pub same :
        (message.from_user_id ≡ req.from_user_id)
        × (message.to_user_id ≡ req.to_user_id)
        × (message.content ≡ req.content)
    pub received :
        (offset : ℕ)
        → Received r dial prefers_done queued.value server_id n client (
            consume_chat r dial prefers_done unmarshal
              (record { topic = queued.topic; value = queued.value; offset = offset })
              t)

  IsQueued-Arrives :
      (topic : Bytes) (now id : ℕ) (req : SendMessageRequest) (k k' : kafka.State)
      (server_id : Bytes) (n : Node) (t : Task r)
      → ((m : Message) (p : Bytes) → marshal (chat m) ≡ some p → unmarshal p ≡ some m)
      → (h : IsReachable r dial prefers_done req.to_user_id server_id n t)
      → IsQueued r kafka marshal topic req.to_user_id (chat_message id now req) k k'
      → Arrives req k k' server_id n t h.client
  IsQueued-Arrives topic now id req k k' sid n t law h q =
      let decoded = law _ q.payload q.encoded in
      record {
        queued = record { topic = topic; key = format_int req.to_user_id; value = q.payload };
        appended = q.appended;
        message = _;
        decoded = decoded;
        same = (refl, refl, refl);
        received = λ offset.
            consume_chat-Received r dial prefers_done unmarshal
              (record { topic = topic; value = q.payload; offset = offset }) _ sid n t decoded h;
      }

  -- If `proto.Unmarshal` undoes `proto.Marshal`, a message whose call has succeeded is one message
  -- more on the queue, with its sender, its recipient and its content, and whoever consumes that while
  -- the recipient is reachable puts it at the end of the recipient's buffer.
  pub send_message-Arrives :
      (s : ChatServer) (now : ℕ) (req : SendMessageRequest) (l : Logic r kafka marshal)
      (reply : SendMessageReply) (server_id : Bytes) (n : Node) (t : Task r)
      → ((m : Message) (p : Bytes) → marshal (chat m) ≡ some p → unmarshal p ≡ some m)
      → (send_message r kafka marshal s now req l).1 ≡ ok reply
      → (h : IsReachable r dial prefers_done req.to_user_id server_id n t)
      → Arrives req l.producer
          (send_message r kafka marshal s now req l).0.producer
          server_id
          n
          t
          h.client
  send_message-Arrives s now req l reply sid n t law sent h =
      elim (Bool-cases (req.from_user_id == req.to_user_id)) [
        | inl e ↦ absurd (
            ground (arith, sent, send_message_self r kafka marshal s now req l (ground (arith, e))))
        | inr e ↦
            elim (send_message_produces r kafka marshal s now req l (λ g. ground (arith, e, g))) [
              | inl q ↦ IsQueued-Arrives s.chat_topic now _ req l.producer _ sid n t law h q.1
              | inr (inl f) ↦ absurd (ground (arith, sent, f.0.1))
              | inr (inr f) ↦ absurd (ground (arith, sent, f))
            ]
      ]

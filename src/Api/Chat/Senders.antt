-- ===== src/Api/Chat/Senders.antt =====
-- Who sends a message that a handler reports as sent.
use likegochat.Prelude.Decimal.{format_int}
use mathlib.Core.Path.{subst}
use likegochat.Prelude.{
  ℕ, ◌≡◌, ◌<◌, ◌^◌, ◌==◌, ◌∙◌, ap, sym, true, List, Option, some, arith, is_empty, mem, Bool-cases,
  Option-cases, inl, inr, ◌++◌, ◌∷◌, [],
}
use likegochat.Prelude.Bytes.{Bytes}
use likegochat.Redis.{Redis, ok}
use likegochat.Logic.ChatServer.{
  Outgoing, Producer, Logic, ChatServer, SendMessageReply, chat_message, group_message, chat, group,
  send_message, send_group_message,
}
use likegochat.Logic.ChatServer.Sends.{
  IsQueued, send_message_produces, send_message_self, send_group_message_lem,
}
use likegochat.Logic.MessageId.{next_message_id}
use likegochat.Logic.GroupCache.Coherence.{IsCoherent}
use likegochat.Logic.Store.Sessions.{IsActive}
use likegochat.Logic.AuthServer.{Database, Bcrypt}
use likegochat.Api.Backend.{Backend, Request, sent, call, on_chat, call_verify}
use likegochat.Api.Backend.Verified.{call-Chats, call_verify_lem}
use likegochat.Api.Chat.{
  SendMessageReq, SendGroupMessageReq, chat_request, group_request, authorized, guarded, send_chat,
  send_group, send_message_handler, send_group_message_handler,
}

module _ (r : Redis) (mysql : Database) (bcrypt : Bcrypt) (kafka : Producer)
    (marshal : Outgoing → Option Bytes) (s : ChatServer) where
  along :
      {topic : Bytes} {target : ℕ} {msg : Outgoing} {k k' j j' : kafka.State}
      → k ≡ j
      → k' ≡ j'
      → IsQueued r kafka marshal topic target msg j j'
      → IsQueued r kafka marshal topic target msg k k'
  along {topic} {target} e e' q = record {
    payload = q.payload;
    encoded = q.encoded;
    appended =
        ap kafka.log e'
        ∙ q.appended
        ∙ ap
            (λ z.
              kafka.log z
              ++ record { topic = topic; key = format_int target; value = q.payload } ∷ [])
            (sym e);
  }

  chat-IsQueued :
      (now u : ℕ) (body : SendMessageReq) (l : Logic r kafka marshal) (reply : SendMessageReply)
      → (send_message r kafka marshal s now (chat_request u body) l).1 ≡ ok reply
      → IsQueued r kafka marshal s.chat_topic body.to_user_id
          (chat_message reply.msg_id now (chat_request u body))
          l.producer
          (send_message r kafka marshal s now (chat_request u body) l).0.producer
  chat-IsQueued now u body l reply h =
      let req = chat_request u body in
      let id = (next_message_id l.local_msg_seq now).1 in
      elim (Bool-cases (u == body.to_user_id)) [
        | inl e ↦
            absurd
              (ground (arith, h, send_message_self r kafka marshal s now req l (ground (arith, e))))
        | inr e ↦
            elim (send_message_produces r kafka marshal s now req l (λ g. ground (arith, e, g))) [
              | inl q ↦ let same : reply.msg_id ≡ id = ground (arith, q.0, h) in rw same q.1
              | inr (inl q) ↦ absurd (ground (arith, q.0.1, h))
              | inr (inr q) ↦ absurd (ground (arith, q, h))
            ]
      ]

  send_chat-IsQueued :
      (now u : ℕ) (body : SendMessageReq) (b : Backend r mysql bcrypt kafka marshal)
      (reply : SendMessageReply)
      → (send_chat r mysql bcrypt kafka marshal s now u body b).1 ≡ sent reply
      → IsQueued r kafka marshal s.chat_topic body.to_user_id
          (chat_message reply.msg_id now (chat_request u body))
          b.producer
          (send_chat r mysql bcrypt kafka marshal s now u body b).0.producer
  unfolding send_chat
  send_chat-IsQueued now u body b reply h =
      let f = send_message r kafka marshal s now (chat_request u body) in
      let called = call r mysql bcrypt kafka marshal (on_chat r mysql bcrypt kafka marshal f) b in
      elim (Option-cases called.1) [
        | inl e ↦ absurd (ground (arith, h, e))
        | inr (out, e) ↦
            let same : out ≡ reply = ground (arith, h, e) in
            let kept : (send_chat r mysql bcrypt kafka marshal s now u body b).0.producer
                ≡ called.0.producer =
              ground (arith, e) in
            let done = call-Chats r mysql bcrypt kafka marshal f b reply (e ∙ ap some same) in
            along (sym done.producer) (kept ∙ done.after)
              (chat-IsQueued now u body done.before reply done.answered)
      ]

  -- The owner of the session that the request names, the decoded body, and what has been queued.
  pub record SentBy (decode : Bytes → Option SendMessageReq) (now : ℕ) (req : Request)
      (b b' : Backend r mysql bcrypt kafka marshal) (reply : SendMessageReply) : Type 0 where
    pub owner : ℕ
    pub active : IsActive r req.authorization owner b.world.db
    pub body : SendMessageReq
    pub decoded : decode req.body ≡ some body
    pub queued :
        IsQueued r kafka marshal s.chat_topic body.to_user_id
          (chat (record {
            msg_id = reply.msg_id;
            from_user_id = owner;
            to_user_id = body.to_user_id;
            content = body.content;
            msg_type = body.msg_type;
            create_time = now;
            client_msg_id = body.client_msg_id;
          }))
          b.producer
          b'.producer

  -- Whatever the networks do, a message that the handler reports as sent is the one message more on the
  -- queue, with the content and the recipient of the request, and its sender is the user whose active
  -- session the request names.
  pub send_message_handler-SentBy :
      (decode : Bytes → Option SendMessageReq) (now : ℕ) (req : Request)
      (b : Backend r mysql bcrypt kafka marshal) (reply : SendMessageReply)
      → (send_message_handler r mysql bcrypt kafka marshal s decode now req b).1 ≡ sent reply
      → SentBy decode now req b
          (send_message_handler r mysql bcrypt kafka marshal s decode now req b).0
          reply
  unfolding send_message_handler guarded authorized
  send_message_handler-SentBy decode now req b reply h =
      let verified = call_verify r mysql bcrypt kafka marshal req.authorization b in
      elim (Bool-cases req.is_post) [
        | inr p ↦ absurd (ground (arith, h, p))
        | inl p ↦ elim (Bool-cases (is_empty req.authorization)) [
          | inl a ↦ absurd (ground (arith, h, p, a))
          | inr a ↦ elim (Option-cases verified.1) [
            | inl v ↦ absurd (ground (arith, h, p, a, v))
            | inr (u, v) ↦ elim (Option-cases (decode req.body)) [
              | inl d ↦ absurd (ground (arith, h, p, a, v, d))
              | inr (body, d) ↦
                  let goes : send_message_handler r mysql bcrypt kafka marshal s decode now req b
                      ≡ send_chat r mysql bcrypt kafka marshal s now u body verified.0 =
                    ground (arith, p, a, v, d) in
                  let yes = call_verify_lem r mysql bcrypt kafka marshal req.authorization b u v in
                  record {
                    owner = u;
                    active = yes.0;
                    body = body;
                    decoded = d;
                    queued = along (sym yes.2) (ap (λ x. x.0.producer) goes) (
                        send_chat-IsQueued now u body verified.0 reply
                          (sym (ap (λ x. x.1) goes) ∙ h));
                  }
            ]
          ]
        ]
      ]

  group-IsQueued :
      (rows : ℕ → List ℕ) (now u : ℕ) (body : SendGroupMessageReq)
      (b : Backend r mysql bcrypt kafka marshal) (reply : SendMessageReply)
      → body.group_id < 2 ^ 64
      → u < 2 ^ 63
      → IsCoherent r rows b.world.db
      → s.has_store ≡ true
      → s.group_members ≡ (λ g. some (rows g))
      → (send_group r mysql bcrypt kafka marshal s now u body b).1 ≡ sent reply
      → (mem u (rows body.group_id) ≡ true)
        × IsQueued r kafka marshal s.group_chat_topic body.group_id
            (group_message reply.msg_id now (group_request u body))
            b.producer
            (send_group r mysql bcrypt kafka marshal s now u body b).0.producer
  unfolding send_group
  group-IsQueued rows now u body b reply hg hu c store table h =
      let f = send_group_message r kafka marshal s now (group_request u body) in
      let called = call r mysql bcrypt kafka marshal (on_chat r mysql bcrypt kafka marshal f) b in
      elim (Option-cases called.1) [
        | inl e ↦ absurd (ground (arith, h, e))
        | inr (out, e) ↦
            let same : out ≡ reply = ground (arith, h, e) in
            let kept : (send_group r mysql bcrypt kafka marshal s now u body b).0.producer
                ≡ called.0.producer =
              ground (arith, e) in
            let done = call-Chats r mysql bcrypt kafka marshal f b reply (e ∙ ap some same) in
            let coherent = subst (λ w. IsCoherent r rows w.db) (sym done.world) c in
            let sends =
              send_group_message_lem r kafka marshal rows s now (group_request u body) done.before
                reply hg hu coherent store table done.answered in
            (sends.0, along (sym done.producer) (kept ∙ done.after) sends.2)
      ]

  -- The owner of the session that the request names, who is in the group by the table, the decoded
  -- body, and what has been queued.
  pub record SentByMember (rows : ℕ → List ℕ) (decode : Bytes → Option SendGroupMessageReq)
      (now : ℕ) (req : Request) (b b' : Backend r mysql bcrypt kafka marshal)
      (reply : SendMessageReply) : Type 0 where
    pub owner : ℕ
    pub active : IsActive r req.authorization owner b.world.db
    pub body : SendGroupMessageReq
    pub decoded : decode req.body ≡ some body
    pub member : mem owner (rows body.group_id) ≡ true
    pub queued :
        IsQueued r kafka marshal s.group_chat_topic body.group_id
          (group (record {
            msg_id = reply.msg_id;
            from_user_id = owner;
            group_id = body.group_id;
            content = body.content;
            msg_type = body.msg_type;
            create_time = now;
            client_msg_id = body.client_msg_id;
          }))
          b.producer
          b'.producer

  -- With a store, whose query gives the table, a cache that agrees with the table, group ids below 2^64
  -- and owners of the session below 2^63, whatever the networks do, a group message that the handler
  -- reports as sent is the one message more on the queue, with the group and the content of the request,
  -- and its sender is the user whose active session the request names, and is in the group by the table.
  pub send_group_message_handler-SentByMember :
      (rows : ℕ → List ℕ) (decode : Bytes → Option SendGroupMessageReq) (now : ℕ) (req : Request)
      (b : Backend r mysql bcrypt kafka marshal) (reply : SendMessageReply)
      → ((text : Bytes) (body : SendGroupMessageReq)
          → decode text ≡ some body
          → body.group_id < 2 ^ 64)
      → ((u : ℕ) → IsActive r req.authorization u b.world.db → u < 2 ^ 63)
      → IsCoherent r rows b.world.db
      → s.has_store ≡ true
      → s.group_members ≡ (λ g. some (rows g))
      → (send_group_message_handler r mysql bcrypt kafka marshal s decode now req b).1 ≡ sent reply
      → SentByMember rows decode now req b
          (send_group_message_handler r mysql bcrypt kafka marshal s decode now req b).0
          reply
  unfolding send_group_message_handler guarded authorized
  send_group_message_handler-SentByMember rows decode now req b reply small ids c store table h =
      let verified = call_verify r mysql bcrypt kafka marshal req.authorization b in
      elim (Bool-cases req.is_post) [
        | inr p ↦ absurd (ground (arith, h, p))
        | inl p ↦ elim (Bool-cases (is_empty req.authorization)) [
          | inl a ↦ absurd (ground (arith, h, p, a))
          | inr a ↦ elim (Option-cases verified.1) [
            | inl v ↦ absurd (ground (arith, h, p, a, v))
            | inr (u, v) ↦ elim (Option-cases (decode req.body)) [
              | inl d ↦ absurd (ground (arith, h, p, a, v, d))
              | inr (body, d) ↦
                  let goes : send_group_message_handler r mysql bcrypt kafka marshal s decode now
                        req b
                      ≡ send_group r mysql bcrypt kafka marshal s now u body verified.0 =
                    ground (arith, p, a, v, d) in
                  let yes = call_verify_lem r mysql bcrypt kafka marshal req.authorization b u v in
                  let sends =
                    group-IsQueued rows now u body verified.0 reply (small req.body body d)
                      (ids u yes.0) (subst (λ z. IsCoherent r rows z) (sym yes.1) c) store table
                      (sym (ap (λ x. x.1) goes) ∙ h) in
                  record {
                    owner = u;
                    active = yes.0;
                    body = body;
                    decoded = d;
                    member = sends.0;
                    queued = along (sym yes.2) (ap (λ x. x.0.producer) goes) sends.1;
                  }
            ]
          ]
        ]
      ]

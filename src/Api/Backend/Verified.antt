-- ===== src/Api/Backend/Verified.antt =====
-- What a call that is answered has done.
use likegochat.Prelude.{ℕ, ◌≡◌, refl, Option, some, arith, List-cases, inl, inr}
use likegochat.Prelude.Bytes.{Bytes}
use likegochat.Redis.{Redis, Outcome-cases, Result, Result-cases, ok}
use likegochat.Logic.Error.{Error}
use likegochat.Logic.ChatServer.{Outgoing, Producer, Logic}
use likegochat.Logic.Store.Sessions.{IsActive}
use likegochat.Logic.AuthServer.{Database, Bcrypt, Servers, verify}
use likegochat.Logic.AuthServer.Verified.{verify_lem}
use likegochat.Api.Backend.{Backend, call_reached, call, call_verify, on_auth, on_chat}

module _ (r : Redis) (mysql : Database) (bcrypt : Bcrypt) (kafka : Producer)
    (marshal : Outgoing → Option Bytes) where
  -- A call of the chat server that is answered was carried out once, on the state before.
  pub record Chats {A : Type 0} (f : Logic r kafka marshal → Logic r kafka marshal × Result Error A)
      (b : Backend r mysql bcrypt kafka marshal)
      (p : Backend r mysql bcrypt kafka marshal × Option A) (a : A) : Type 0 where
    pub before : Logic r kafka marshal
    pub world : before.world ≡ b.world
    pub producer : before.producer ≡ b.producer
    pub answered : (f before).1 ≡ ok a
    pub after : p.0.producer ≡ (f before).0.producer

  pub call-Chats :
      {A : Type 0} (f : Logic r kafka marshal → Logic r kafka marshal × Result Error A)
      (b : Backend r mysql bcrypt kafka marshal) (a : A)
      → (call r mysql bcrypt kafka marshal (on_chat r mysql bcrypt kafka marshal f) b).1 ≡ some a
      → Chats f b (call r mysql bcrypt kafka marshal (on_chat r mysql bcrypt kafka marshal f) b) a
  unfolding call call_reached on_chat
  call-Chats f b a h =
      let before : Logic r kafka marshal = record {
        local_msg_seq = b.local_msg_seq;
        world = b.world;
        producer = b.producer;
      } in
      elim (List-cases b.calls) [
        | inl e ↦ elim (Result-cases (f before).1) [
          | inr (x, g) ↦ absurd (ground (arith, h, e, g))
          | inl (a', g) ↦ record {
            before = before;
            world = refl;
            producer = refl;
            answered = ground (arith, h, e, g);
            after = ground (arith, e);
          }
        ]
        | inr ((o, rest), e) ↦ elim (Outcome-cases o) [
          | inl d ↦ elim (Result-cases (f before).1) [
            | inr (x, g) ↦ absurd (ground (arith, h, e, d, g))
            | inl (a', g) ↦ record {
              before = before;
              world = refl;
              producer = refl;
              answered = ground (arith, h, e, d, g);
              after = ground (arith, e, d);
            }
          ]
          | inr (inl d) ↦ absurd (ground (arith, h, e, d))
          | inr (inr d) ↦ absurd (ground (arith, h, e, d))
        ]
      ]

  -- A session that is verified is active, and the call leaves the data and the queue.
  pub call_verify_lem :
      (token : Bytes) (b : Backend r mysql bcrypt kafka marshal) (u : ℕ)
      → (call_verify r mysql bcrypt kafka marshal token b).1 ≡ some u
      → IsActive r token u b.world.db
        × ((call_verify r mysql bcrypt kafka marshal token b).0.world.db ≡ b.world.db)
        × ((call_verify r mysql bcrypt kafka marshal token b).0.producer ≡ b.producer)
  unfolding call_verify call call_reached on_auth
  call_verify_lem token b u h =
      let s : Servers r mysql bcrypt = record { world = b.world; db = b.db } in
      elim (Result-cases (verify r mysql bcrypt token s).1) [
        | inr (x, g) ↦ absurd (elim (List-cases b.calls) [
          | inl e ↦ ground (arith, h, e, g)
          | inr ((o, rest), e) ↦ ground (arith, h, e, g, Outcome-cases o)
        ])
        | inl (v, g) ↦
            let yes = verify_lem r mysql bcrypt token v s g in
            elim (List-cases b.calls) [
              | inl e ↦
                  let same : v ≡ u = ground (arith, h, e, g) in
                  (rw (← same) yes.0, ground (arith, e, yes.1), ground (arith, e))
              | inr ((o, rest), e) ↦
                  let same : v ≡ u = ground (arith, h, e, g, Outcome-cases o) in
                  (
                    rw (← same) yes.0,
                    ground (arith, h, e, yes.1, Outcome-cases o),
                    ground (arith, h, e, Outcome-cases o),
                  )
            ]
      ]

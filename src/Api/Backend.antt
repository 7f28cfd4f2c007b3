-- ===== src/Api/Backend.antt =====
-- What the handlers of internal/api share: the logic layer behind its gRPC calls, each of which may
-- be lost on its way or on its way back, and the answers.
pub mod Verified
use likegochat.Prelude.{ℕ, Bool, List, [], ◌∷◌, Option, none, some}
use likegochat.Prelude.Bytes.{Bytes}
use likegochat.Redis.{Redis, World, Outcome, delivered, refused, reply_lost, Result, ok, err}
use likegochat.Logic.Error.{Error}
use likegochat.Logic.ChatServer.{Outgoing, Producer, Logic, SendMessageReply}
use likegochat.Logic.AuthServer.{Database, Bcrypt, Servers, LoginReply, verify}

-- The parts of a request that a handler reads.
pub record Request : Type 0 where
  pub is_post : Bool
  pub authorization : Bytes
  pub body : Bytes

-- A status other than 200, or what the body of a 200 tells.
pub data Response : Type 0 where
  http_error : ℕ → Response
  user : ℕ → Response
  session : LoginReply → Response
  sent : SendMessageReply → Response
  joined : Response
  created : ℕ → Response

abbrev pub bad_request : ℕ
bad_request = 400

abbrev pub unauthorized : ℕ
unauthorized = 401

abbrev pub method_not_allowed : ℕ
method_not_allowed = 405

abbrev pub internal_server_error : ℕ
internal_server_error = 500

module _ (r : Redis) (mysql : Database) (bcrypt : Bcrypt) (kafka : Producer)
    (marshal : Outgoing → Option Bytes) where
  -- The state of the logic layer, and the outcomes of the calls to come.
  pub record Backend : Type 0 where
    pub world : World r
    pub db : mysql.State
    pub local_msg_seq : ℕ
    pub producer : kafka.State
    pub calls : List Outcome

  unfoldable pub on_auth :
      {A : Type 0}
      → (Servers r mysql bcrypt → Servers r mysql bcrypt × Result Error A)
      → Backend
      → Backend × Result Error A
  on_auth f b =
      let (s, res) = f (record { world = b.world; db = b.db }) in
      (record b { world = s.world; db = s.db }, res)

  unfoldable pub on_chat :
      {A : Type 0}
      → (Logic r kafka marshal → Logic r kafka marshal × Result Error A)
      → Backend
      → Backend × Result Error A
  on_chat f b =
      let (l, res) =
        f (record { local_msg_seq = b.local_msg_seq; world = b.world; producer = b.producer }) in
      (record b { world = l.world; local_msg_seq = l.local_msg_seq; producer = l.producer }, res)

  abbrev pub answer : {A : Type 0} → Result Error A → Option A
  answer (ok a) = some a
  answer (err e) = none

  -- One call on its outcome; `none` is an error, of the call or of the server.
  unfoldable pub call_reached :
      {A : Type 0} → Outcome → (Backend → Backend × Result Error A) → Backend → Backend × Option A
  call_reached delivered f b = ((f b).0, answer (f b).1)
  call_reached refused f b = (b, none)
  call_reached reply_lost f b = ((f b).0, none)

  unfoldable pub call :
      {A : Type 0} → (Backend → Backend × Result Error A) → Backend → Backend × Option A
  unfolding call_reached
  call f b = elim b.calls [
    | [] ↦ call_reached delivered f b
    | o ∷ rest ↦ call_reached o f (record b { calls = rest })
  ]

  unfoldable pub call_verify : Bytes → Backend → Backend × Option ℕ
  unfolding call on_auth
  call_verify token = call (on_auth (verify r mysql bcrypt token))

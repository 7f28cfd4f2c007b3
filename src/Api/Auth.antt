-- ===== src/Api/Auth.antt =====
-- internal/api/handler_auth.go.
use likegochat.Prelude.{ℕ, Option, none, some, not, is_empty, if◌then◌else◌}
use likegochat.Prelude.Bytes.{Bytes}
use likegochat.Redis.{Redis}
use likegochat.Logic.ChatServer.{Outgoing, Producer}
use likegochat.Logic.AuthServer.{Database, Bcrypt, register, login}
use likegochat.Api.Backend.{
  Backend, Request, Response, http_error, user, session, call, on_auth, call_verify, bad_request,
  unauthorized, method_not_allowed, internal_server_error,
}

pub record Credentials : Type 0 where
  pub username : Bytes
  pub password : Bytes

module _ (r : Redis) (mysql : Database) (bcrypt : Bcrypt) (kafka : Producer)
    (marshal : Outgoing → Option Bytes) (decode : Bytes → Option Credentials) where
  abbrev Served : Type 0
  Served = Backend r mysql bcrypt kafka marshal × Response

  pub register_handler : Request → Backend r mysql bcrypt kafka marshal → Served
  register_handler req b =
      if not req.is_post then (b, http_error method_not_allowed) else elim (decode req.body) [
        | none ↦ (b, http_error bad_request)
        | some c ↦
            let (b', out) =
              call r mysql bcrypt kafka marshal
                (on_auth r mysql bcrypt kafka marshal
                  (register r mysql bcrypt c.username c.password))
                b in
            (b', elim out [ none ↦ http_error internal_server_error | some id ↦ user id ])
      ]

  -- `session_id` is the next UUID of the server.
  pub login_handler : ℕ → Bytes → Request → Backend r mysql bcrypt kafka marshal → Served
  login_handler session_ttl session_id req b =
      if not req.is_post then (b, http_error method_not_allowed) else elim (decode req.body) [
        | none ↦ (b, http_error bad_request)
        | some c ↦
            let (b', out) =
              call r mysql bcrypt kafka marshal
                (on_auth r mysql bcrypt kafka marshal
                  (login r mysql bcrypt session_ttl session_id c.username c.password))
                b in
            (b', elim out [ none ↦ http_error unauthorized | some reply ↦ session reply ])
      ]

  pub verify_handler : Request → Backend r mysql bcrypt kafka marshal → Served
  verify_handler req b =
      if is_empty req.authorization
      then (b, http_error unauthorized)
      else let (b', out) = call_verify r mysql bcrypt kafka marshal req.authorization b in
        (b', elim out [ none ↦ http_error internal_server_error | some id ↦ user id ])

-- ===== src/Api/Group.antt =====
-- internal/api/handler_group.go.
use likegochat.Prelude.{ℕ, List, [], ◌∷◌, Option, none, some, not, if◌then◌else◌}
use likegochat.Prelude.Bytes.{Bytes}
use likegochat.Redis.{Redis, Outcome, delivered, refused, reply_lost, Result}
use likegochat.Logic.Error.{Error}
use likegochat.Logic.ChatServer.{Outgoing, Producer}
use likegochat.Logic.AuthServer.{Database, Bcrypt}
use likegochat.Logic.GroupServer.{GroupTables, GroupServer, add_group, create_group}
use likegochat.Api.Backend.{
  Backend, Request, Response, http_error, joined, created, call_verify, answer, bad_request,
  internal_server_error, method_not_allowed,
}

pub record AddGroupRequest : Type 0 where
  pub group_id : ℕ
  pub session_id : Bytes

pub record CreateGroupRequest : Type 0 where
  pub session_id : Bytes
  pub group_name : Bytes

module _ (r : Redis) (mysql : Database) (bcrypt : Bcrypt) (kafka : Producer)
    (marshal : Outgoing → Option Bytes) (tables : GroupTables) where
  -- The logic layer with its tables of groups.
  pub record Groups : Type 0 where
    pub backend : Backend r mysql bcrypt kafka marshal
    pub db : tables.State
    pub sql : List Outcome
    pub pending : List ℕ

  abbrev Served : Type 0
  Served = Groups × Response

  pub on_groups :
      {A : Type 0}
      → (GroupServer r tables → GroupServer r tables × Result Error A)
      → Groups
      → Groups × Result Error A
  on_groups f g =
      let (s, res) =
        f (record { world = g.backend.world; db = g.db; sql = g.sql; pending = g.pending }) in
      (
        record {
          backend = record g.backend { world = s.world };
          db = s.db;
          sql = s.sql;
          pending = s.pending;
        },
        res,
      )

  pub group_reached :
      {A : Type 0} → Outcome → (Groups → Groups × Result Error A) → Groups → Groups × Option A
  group_reached delivered f g = ((f g).0, answer r mysql bcrypt kafka marshal (f g).1)
  group_reached refused f g = (g, none)
  group_reached reply_lost f g = ((f g).0, none)

  pub call_group : {A : Type 0} → (Groups → Groups × Result Error A) → Groups → Groups × Option A
  unfolding group_reached
  call_group f g = elim g.backend.calls [
    | [] ↦ group_reached delivered f g
    | o ∷ rest ↦ group_reached o f (record g { backend = record g.backend { calls = rest } })
  ]

  -- The session of the request, or the status 400.
  pub with_user : Bytes → Groups → (ℕ → Groups → Served) → Served
  with_user session_id g handle =
      let (b, verified) = call_verify r mysql bcrypt kafka marshal session_id g.backend in
      let g' : Groups = record g { backend = b } in
      elim verified [ none ↦ (g', http_error bad_request) | some u ↦ handle u g' ]

  pub join_group : ℕ → ℕ → Groups → Served
  unfolding call_group on_groups
  join_group group_id u g =
      let (g', done) = call_group (on_groups (add_group r tables group_id u)) g in
      (g', elim done [ none ↦ http_error internal_server_error | some b ↦ joined ])

  pub add_group_handler : (Bytes → Option AddGroupRequest) → Request → Groups → Served
  unfolding with_user join_group
  add_group_handler decode req g =
      if not req.is_post then (g, http_error bad_request) else elim (decode req.body) [
        | none ↦ (g, http_error bad_request)
        | some body ↦ with_user body.session_id g (join_group body.group_id)
      ]

  pub make_group : Bytes → ℕ → Groups → Served
  unfolding call_group on_groups
  make_group group_name u g =
      let (g', done) = call_group (on_groups (create_group r tables group_name u)) g in
      (g', elim done [ none ↦ http_error internal_server_error | some id ↦ created id ])

  pub create_group_handler : (Bytes → Option CreateGroupRequest) → Request → Groups → Served
  unfolding with_user make_group
  create_group_handler decode req g =
      if not req.is_post then (g, http_error method_not_allowed) else elim (decode req.body) [
        | none ↦ (g, http_error bad_request)
        | some body ↦ with_user body.session_id g (make_group body.group_name)
      ]

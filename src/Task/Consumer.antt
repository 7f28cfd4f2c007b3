-- ===== src/Task/Consumer.antt =====
-- What the consumers of internal/task/consumer.go share: the connections, the calls of the connect
-- nodes, and the marks of the session. `nodes` has the connect processes by their addresses, `rpc` the
-- outcomes of the gRPC calls to come, and `waits` says for each wait for a token whether the context
-- ends first; after the last of a list every call and every wait succeeds.
pub mod Calls
pub mod Nodes
use likegochat.Prelude.{
  ℕ, Bool, true, false, not, List, [], ◌∷◌, ◌++◌, Option, none, some, if◌then◌else◌,
}
use likegochat.Prelude.Bytes.{Bytes, codes}
use likegochat.Prelude.Decimal.{format_int}
use likegochat.Prelude.Dicts.{Dict, find, put}
use likegochat.Redis.{Redis, World, M, Outcome, delivered, refused, reply_lost, round_trip}
use likegochat.Connect.Client.{Node}
use likegochat.Connect.GrpcServer.{PushMsgRequest, PushAllRequest, push_msg, push_msg_to_users}
use likegochat.Task.ClientPool.{Pool, get_client}

pub data ConsumeError : Type 0 where
  redis_failed rpc_failed unmarshal_failed expired : ConsumeError
  cache_missed no_members no_online_users : ConsumeError
  db_nil db_failed : ConsumeError

-- `sarama.ConsumerMessage`.
pub record ConsumerMessage : Type 0 where
  pub topic : Bytes
  pub value : Bytes
  pub offset : ℕ

abbrev pub routing_key_prefix : Bytes
routing_key_prefix = codes "user_server:"

unfoldable pub routing_key : ℕ → Bytes
routing_key user_id = routing_key_prefix ++ format_int user_id

module _ (r : Redis) where
  pub record Task : Type 0 where
    pub world : World r
    pub pool : Pool
    pub nodes : Dict Node
    pub rpc : List Outcome
    pub waits : List Bool
    pub marked : List ℕ

  -- `Get` of a route; `none` is `redis.Nil`.
  pub get_route : ℕ → M r ConsumeError (Option Bytes)
  get_route user_id = round_trip redis_failed (λ s. (s, r.get (routing_key user_id) s))

  -- `session.MarkMessage`.
  unfoldable pub mark_message : ConsumerMessage → Task → Task
  mark_message m t = record t { marked = t.marked ++ m.offset ∷ [] }

  -- The wait for a token, of which as many are out as calls may run at once, and whether it was given.
  unfoldable pub wait_token : Task → Task × Bool
  wait_token t = elim t.waits [
    | [] ↦ (t, true)
    | ended ∷ rest ↦ (record t { waits = rest }, elim ended [ true ↦ false | false ↦ true ])
  ]

  -- One call of a node that runs at an address, and whether it has been answered.
  pub reach : {A : Type 0} → (Node → Node × A) → Bytes → Node → Task → Task × Bool
  reach f addr n t =
      let called : Dict Node = put addr (f n).0 t.nodes in
      elim t.rpc [
        | [] ↦ (record t { nodes = called }, true)
        | o ∷ rest ↦ elim o [
          | delivered ↦ (record t { nodes = called; rpc = rest }, true)
          | refused ↦ (record t { rpc = rest }, false)
          | reply_lost ↦ (record t { nodes = called; rpc = rest }, false)
        ]
      ]

  pub call_node : {A : Type 0} → (Node → Node × A) → ℕ → Task → Task × Bool
  unfolding reach
  call_node f conn t =
      if not (t.pool.opened conn) then (t, false) else elim (find (t.pool.target conn) t.nodes) [
        | none ↦ (t, false)
        | some n ↦ reach f (t.pool.target conn) n t
      ]

  module _ (dial : Bytes → Bool) where
    -- A call of the node at an address, over the connection of the pool.
    pub with_client : {A : Type 0} → (Node → Node × A) → Bytes → Task → Task × Bool
    unfolding call_node
    with_client f server_id t =
        let (pool, got) = get_client dial server_id t.pool in
        let t' : Task = record t { pool = pool } in
        elim got [ none ↦ (t', false) | some conn ↦ call_node f conn t' ]

    module _ (prefers_done : ℕ → Bool) where
      pub push_to_user : Bytes → ℕ → Bytes → ℕ → Task → Task × Bool
      unfolding with_client
      push_to_user server_id user_id payload msg_type t =
          with_client
            (push_msg prefers_done
              (record { to_user_id = user_id; payload = payload; msg_type = msg_type }))
            server_id t

      pub push_to_connect : Bytes → ℕ → List ℕ → Bytes → ℕ → Task → Task × Bool
      unfolding with_client
      push_to_connect server_id group_id to_user_ids payload msg_type t =
          with_client
            (push_msg_to_users prefers_done (record {
              group_id = group_id;
              payload = payload;
              user_ids = to_user_ids;
              msg_type = msg_type;
            }))
            server_id t

-- ===== src/Task/Consumer/Calls.antt =====
-- What a call of a connect node does where the network works, and that the keys of the routes agree.
use likegochat.Connect.GrpcServer.{push_msg, push_msg_to_users}
use likegochat.Connect.Registry.Routes.{route}
use likegochat.Prelude.{
  ℕ, ◌≡◌, refl, Bool, true, List, [], some, arith, Option-cases, List-cases, inl, inr, ap,
  Bool-cases, length, ◌≤◌,
}
use likegochat.Prelude.Bytes.{Bytes}
use likegochat.Prelude.Dicts.{find, put}
use likegochat.Redis.{Redis, World, ok, Outcome-cases}
use likegochat.Connect.Client.{Node}
use likegochat.Connect.Registry.{user_server_key}
use likegochat.Task.ClientPool.{get_client}
use likegochat.Task.ClientPool.Leaks.{get_client-twice, get_client-some}
use likegochat.Task.ClientPool.Invariant.{Reach}
use likegochat.Task.Consumer.{
  Task, routing_key, reach, call_node, with_client, get_route, push_to_user, push_msg,
  push_to_connect,
}

-- The task layer reads a route where the connect layer writes it.
pub routing_key_lem : (u : ℕ) → routing_key u ≡ user_server_key u
unfolding routing_key user_server_key
routing_key_lem u = refl

module _ (r : Redis) (dial : Bytes → Bool) where
  -- A node that the pool gets a connection to, and that runs.
  pub record IsUp (server_id : Bytes) (n : Node) (t : Task r) : Type 0 where
    pub taken : List ℕ
    pub pooled : Reach dial t.pool taken
    pub dials : dial server_id ≡ true
    pub running : find server_id t.nodes ≡ some n

  -- With no fault of the network left, a call of a node that is up has its effect on that node, and
  -- is answered.
  pub with_client_lem :
      {A : Type 0} (f : Node → Node × A) (server_id : Bytes) (n : Node) (t : Task r)
      → IsUp server_id n t
      → t.rpc ≡ []
      → with_client r dial f server_id t ≡ (
        record t {
          pool = (get_client dial server_id t.pool).0;
          nodes = put server_id (f n).0 t.nodes;
        },
        true,
      )
  unfolding with_client call_node reach
  with_client_lem f server_id n t up calm =
      let (conn, dialled) = get_client-some dial server_id t.pool up.dials in
      let got = get_client-twice dial server_id t.pool up.taken conn up.pooled dialled in
      ground (arith, dialled, up.running, got.0, got.1, calm)

  -- What a call leaves: the data, the tokens and the marks; it may use up an outcome.
  pub record Frames (t t' : Task r) : Type 0 where
    pub world : t'.world ≡ t.world
    pub waits : t'.waits ≡ t.waits
    pub marked : t'.marked ≡ t.marked
    pub rpc : length t'.rpc ≤ length t.rpc

  reach-Frames :
      {A : Type 0} (f : Node → Node × A) (addr : Bytes) (n : Node) (t : Task r)
      → Frames t (reach r f addr n t).0
  unfolding reach
  reach-Frames f addr n t = elim (List-cases t.rpc) [
    | inl e ↦ record {
      world = ground (arith, e);
      waits = ground (arith, e);
      marked = ground (arith, e);
      rpc = ground (arith, e);
    }
    | inr ((o, rest), e) ↦ record {
      world = ground (arith, e, Outcome-cases o);
      waits = ground (arith, e, Outcome-cases o);
      marked = ground (arith, e, Outcome-cases o);
      rpc = ground (arith, e, Outcome-cases o);
    }
  ]

  call_node-Frames :
      {A : Type 0} (f : Node → Node × A) (c : ℕ) (t : Task r) → Frames t (call_node r f c t).0
  unfolding call_node
  call_node-Frames f c t = elim (Bool-cases (t.pool.opened c)) [
    | inr o ↦ record {
      world = ground (arith, o);
      waits = ground (arith, o);
      marked = ground (arith, o);
      rpc = ground (arith, o);
    }
    | inl o ↦ elim (Option-cases (find (t.pool.target c) t.nodes)) [
      | inl k ↦ record {
        world = ground (arith, o, k);
        waits = ground (arith, o, k);
        marked = ground (arith, o, k);
        rpc = ground (arith, o, k);
      }
      | inr (n, k) ↦ rw (call_node, o, k) (reach-Frames f (t.pool.target c) n t)
    ]
  ]

  pub with_client-Frames :
      {A : Type 0} (f : Node → Node × A) (server_id : Bytes) (t : Task r)
      → Frames t (with_client r dial f server_id t).0
  unfolding with_client
  with_client-Frames f server_id t =
      let p = get_client dial server_id t.pool in
      elim (Option-cases p.1) [
        | inl g ↦ record {
          world = ground (arith, g);
          waits = ground (arith, g);
          marked = ground (arith, g);
          rpc = ground (arith, g);
        }
        | inr (c, g) ↦
            let call = call_node-Frames f c (record t { pool = p.0 }) in
            record {
              world = ground (arith, g, call.world);
              waits = ground (arith, g, call.waits);
              marked = ground (arith, g, call.marked);
              rpc = ground (arith, g, call.rpc);
            }
      ]

  -- With no fault of the network left, the route of a user is read.
  pub get_route_lem :
      (u : ℕ) (w : World r) → w.net ≡ [] → get_route r u w ≡ (w, ok (route r u w.db))
  unfolding get_route routing_key user_server_key route
  get_route_lem u w e = ground (arith, e)

  module _ (prefers_done : ℕ → Bool) where
    pub push_to_user_marked :
        (server_id : Bytes) (u : ℕ) (payload : Bytes) (msg_type : ℕ) (t : Task r)
        → (push_to_user r dial prefers_done server_id u payload msg_type t).0.marked ≡ t.marked
    unfolding push_to_user
    push_to_user_marked server_id u payload msg_type t =
        (with_client-Frames
          (push_msg prefers_done
            (record { to_user_id = u; payload = payload; msg_type = msg_type }))
          server_id t).marked

    pub push_to_user_nodes :
        (server_id : Bytes) (u : ℕ) (payload : Bytes) (msg_type : ℕ) (n : Node) (t : Task r)
        → IsUp server_id n t
        → t.rpc ≡ []
        → (push_to_user r dial prefers_done server_id u payload msg_type t).0.nodes
          ≡ put server_id
              (push_msg prefers_done
                (record { to_user_id = u; payload = payload; msg_type = msg_type })
                n).0
              t.nodes
    unfolding push_to_user
    push_to_user_nodes server_id u payload msg_type n t up calm =
        ap (λ p. p.0.nodes)
          (with_client_lem
            (push_msg prefers_done
              (record { to_user_id = u; payload = payload; msg_type = msg_type }))
            server_id n t up calm)

    pub push_to_connect-Frames :
        (server_id : Bytes) (g : ℕ) (us : List ℕ) (payload : Bytes) (msg_type : ℕ) (t : Task r)
        → Frames t (push_to_connect r dial prefers_done server_id g us payload msg_type t).0
    unfolding push_to_connect
    push_to_connect-Frames server_id g us payload msg_type t =
        with_client-Frames
          (push_msg_to_users prefers_done
            (record { group_id = g; payload = payload; user_ids = us; msg_type = msg_type }))
          server_id t

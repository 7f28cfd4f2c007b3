-- ===== src/Task/Consumer/Nodes.antt =====
-- A call of one connect node leaves the others, and the pool able to call them.
use likegochat.Connect.GrpcServer.{push_msg_to_users}
use likegochat.Prelude.{
  ℕ, ◌≡◌, Bool, true, false, List, [], ◌∷◌, arith, Option-cases, Bool-cases, List-cases, inl, inr,
  ◌∙◌, length, ◌≤◌, refl,
}
use likegochat.Prelude.Bytes.{Bytes, bytes_eq, bytes_eq_refl}
use likegochat.Prelude.Dicts.{find, find-put}
use likegochat.Redis.{Redis, Outcome-cases}
use likegochat.Connect.Client.{Node}
use likegochat.Task.ClientPool.{get_client}
use likegochat.Task.ClientPool.Leaks.{get_client-twice, get_client-Reach}
use likegochat.Task.ClientPool.Invariant.{Reach}
use likegochat.Task.Consumer.{
  Task, reach, call_node, with_client, push_to_connect, push_msg_to_users, wait_token,
}
use likegochat.Task.Consumer.Calls.{IsUp, with_client_lem, with_client-Frames}

pub no_more : {A : Type 0} (xs ys : List A) → length xs ≤ length ys → ys ≡ [] → xs ≡ []
no_more [] ys h e = refl
no_more (x ∷ xs) [] h e = absurd (omega (arith, h))
no_more (x ∷ xs) (y ∷ ys) h e = absurd (ground (arith, e))

module _ (r : Redis) (dial : Bytes → Bool) where
  -- What a call leaves of the node at `j`, and of the pool.
  record Spares (j : Bytes) (t t' : Task r) : Type 0 where
    pool : t'.pool ≡ t.pool
    other : find j t'.nodes ≡ find j t.nodes

  reach-Spares :
      {A : Type 0} (f : Node → Node × A) (addr j : Bytes) (n : Node) (t : Task r)
      → bytes_eq addr j ≡ false
      → Spares j t (reach r f addr n t).0
  unfolding reach
  reach-Spares f addr j n t ne =
      let step = find-put addr j (f n).0 t.nodes in
      elim (List-cases t.rpc) [
        | inl e ↦ record { pool = ground (arith, e); other = ground (arith, e, step, ne) }
        | inr ((o, rest), e) ↦ record {
          pool = ground (arith, e, Outcome-cases o);
          other = ground (arith, e, Outcome-cases o, step, ne);
        }
      ]

  call_node-Spares :
      {A : Type 0} (f : Node → Node × A) (c : ℕ) (j : Bytes) (t : Task r)
      → bytes_eq (t.pool.target c) j ≡ false
      → Spares j t (call_node r f c t).0
  unfolding call_node
  call_node-Spares f c j t ne = elim (Bool-cases (t.pool.opened c)) [
    | inr o ↦ record { pool = ground (arith, o); other = ground (arith, o) }
    | inl o ↦ elim (Option-cases (find (t.pool.target c) t.nodes)) [
      | inl k ↦ record { pool = ground (arith, o, k); other = ground (arith, o, k) }
      | inr (n, k) ↦ rw (call_node, o, k) (reach-Spares f (t.pool.target c) j n t ne)
    ]
  ]

  with_client-Spares :
      {A : Type 0} (f : Node → Node × A) (k j : Bytes) (t : Task r) (taken : List ℕ)
      → Reach dial t.pool taken
      → bytes_eq k j ≡ false
      → Spares j (record t { pool = (get_client dial k t.pool).0 }) (with_client r dial f k t).0
  unfolding with_client
  with_client-Spares f k j t taken h ne =
      let p = get_client dial k t.pool in
      elim (Option-cases p.1) [
        | inl g ↦ record { pool = ground (arith, g); other = ground (arith, g) }
        | inr (c, g) ↦
            let got = get_client-twice dial k t.pool taken c h g in
            let call =
              call_node-Spares f c j (record t { pool = p.0 }) (ground (arith, got.1, ne)) in
            record { pool = ground (arith, g, call.pool); other = ground (arith, g, call.other) }
      ]

  -- A call of another node leaves a node as it is, and up.
  pub with_client-IsUp :
      {A : Type 0} (f : Node → Node × A) (k j : Bytes) (n : Node) (t : Task r)
      → bytes_eq k j ≡ false
      → IsUp r dial j n t
      → IsUp r dial j n (with_client r dial f k t).0
  with_client-IsUp f k j n t ne up =
      let left = with_client-Spares f k j t up.taken up.pooled ne in
      record {
        taken = up.taken;
        pooled = rw left.pool (get_client-Reach dial k t.pool up.taken up.pooled);
        dials = up.dials;
        running = left.other ∙ up.running;
      }

  -- A call of a node with no fault of the network left has its effect, and leaves the node up.
  pub with_client-own :
      {A : Type 0} (f : Node → Node × A) (j : Bytes) (n : Node) (t : Task r)
      → IsUp r dial j n t
      → t.rpc ≡ []
      → IsUp r dial j (f n).0 (with_client r dial f j t).0
  with_client-own f j n t up calm = rw (with_client_lem r dial f j n t up calm) (record {
    taken = up.taken;
    pooled = get_client-Reach dial j t.pool up.taken up.pooled;
    dials = up.dials;
    running = find-put j j (f n).0 t.nodes ∙ ground (arith, bytes_eq_refl j);
  })

  pub wait_token_calm : (t : Task r) → t.waits ≡ [] → wait_token r t ≡ (t, true)
  unfolding wait_token
  wait_token_calm t e = ground (arith, e)

  -- No fault of a call and no end of a wait is to come.
  abbrev pub IsCalm : Task r → Type 0
  IsCalm t = (t.rpc ≡ []) × (t.waits ≡ [])

  pub with_client-IsCalm :
      {A : Type 0} (f : Node → Node × A) (server_id : Bytes) (t : Task r)
      → IsCalm t
      → IsCalm (with_client r dial f server_id t).0
  with_client-IsCalm f server_id t c =
      let call = with_client-Frames r dial f server_id t in
      (no_more _ t.rpc call.rpc c.0, call.waits ∙ c.1)

  module _ (prefers_done : ℕ → Bool) where
    pub push_to_connect-IsUp :
        (k : Bytes) (g : ℕ) (us : List ℕ) (payload : Bytes) (msg_type : ℕ) (j : Bytes) (n : Node)
        (t : Task r)
        → bytes_eq k j ≡ false
        → IsUp r dial j n t
        → IsUp r dial j n (push_to_connect r dial prefers_done k g us payload msg_type t).0
    unfolding push_to_connect
    push_to_connect-IsUp k g us payload msg_type j n t ne up =
        with_client-IsUp
          (push_msg_to_users prefers_done
            (record { group_id = g; payload = payload; user_ids = us; msg_type = msg_type }))
          k j n t ne up

    pub push_to_connect-own :
        (g : ℕ) (us : List ℕ) (payload : Bytes) (msg_type : ℕ) (j : Bytes) (n : Node) (t : Task r)
        → IsUp r dial j n t
        → t.rpc ≡ []
        → IsUp r dial j
            (push_msg_to_users prefers_done
              (record { group_id = g; payload = payload; user_ids = us; msg_type = msg_type })
              n).0
            (push_to_connect r dial prefers_done j g us payload msg_type t).0
    unfolding push_to_connect
    push_to_connect-own g us payload msg_type j n t up calm =
        with_client-own
          (push_msg_to_users prefers_done
            (record { group_id = g; payload = payload; user_ids = us; msg_type = msg_type }))
          j n t up calm

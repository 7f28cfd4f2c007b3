-- ===== src/Connect/Serve/Users.antt =====
-- Whom a node serves, and what Redis says of it.
use likegochat.Prelude.{
  ℕ, ◌≡◌, ◌≢◌, ◌<◌, ◌^◌, ◌⊎◌, Bool, false, Bool-cases, some, none, Option-cases, inl, inr, arith,
  lookup, ◌==◌, if◌then◌else◌, is_empty, refl,
}
use likegochat.Prelude.Bytes.{Bytes}
use likegochat.Redis.{Redis, Outcome, Outcome-cases, Result-cases, ok}
use likegochat.Logic.Store.Sessions.{IsActive}
use likegochat.Logic.AuthServer.{Database, Bcrypt, Servers, verify}
use likegochat.Logic.AuthServer.Verified.{verify_lem}
use likegochat.Connect.Client.{connect, remove_client_if_match, cleanup}
use likegochat.Connect.Client.Registered.{
  Inv, connect-Inv, connect_replaces, remove-Inv, remove_success, removes, connect-cleanup,
}
use likegochat.Connect.Registry.{register_user}
use likegochat.Connect.Registry.Routes.{route, register_user_lem, register_route}
use likegochat.Connect.Serve.{
  Site, End, serving, not_registered, verify_call, admit, serve_ws, disconnect,
}

module _ (r : Redis) (mysql : Database) (bcrypt : Bcrypt) where
  disconnect_unchanged :
      (p : ℕ) (s : Site r mysql bcrypt)
      → cleanup p s.node ≡ (s.node, false)
      → disconnect r mysql bcrypt p s ≡ s
  unfolding disconnect
  disconnect_unchanged p s h = rw h refl

module _ (r : Redis) (mysql : Database) (bcrypt : Bcrypt) where
  verify_call_lem :
      (o : Outcome) (sid : Bytes) (u : ℕ) (s : Servers r mysql bcrypt)
      → (verify_call r mysql bcrypt o sid s).1 ≡ some u
      → IsActive r sid u s.world.db × ((verify_call r mysql bcrypt o sid s).0.world.db ≡ s.world.db)
  unfolding verify_call
  verify_call_lem o sid u s h = elim (Result-cases (verify r mysql bcrypt sid s).1) [
    | inr (x, g) ↦ absurd (ground (arith, h, g, Outcome-cases o))
    | inl (v, g) ↦
        let yes = verify_lem r mysql bcrypt sid v s g in
        let same : v ≡ u = ground (arith, h, g, Outcome-cases o) in
        (rw (← same) yes.0, ground (arith, h, yes.1, Outcome-cases o))
  ]

  module _ (server_id : Bytes) where
    -- Where `ServeWS` reaches the upgraded connection: its user and the state then.
    record Admits (sid : Bytes) (s : Site r mysql bcrypt) (p : Site r mysql bcrypt × End)
        : Type 0 where
      user : ℕ
      servers : Servers r mysql bcrypt
      active : IsActive r sid user s.servers.world.db
      same_db : servers.world.db ≡ s.servers.world.db
      admits : p ≡ admit r mysql bcrypt server_id user (record { node = s.node; servers = servers })

    reaches :
        (sid : Bytes) (o : Outcome) (up : Bool) (s : Site r mysql bcrypt)
        → Admits sid s (serve_ws r mysql bcrypt server_id sid o up s)
          ⊎ (((u c : ℕ) → (serve_ws r mysql bcrypt server_id sid o up s).1 ≢ serving u c)
              × ((serve_ws r mysql bcrypt server_id sid o up s).1 ≢ not_registered))
    unfolding serve_ws
    reaches sid o up s =
        let call = verify_call r mysql bcrypt o sid s.servers in
        elim (Bool-cases (is_empty sid)) [
          | inl e ↦ inr (λ u c h. ground (arith, h, e), λ h. ground (arith, h, e))
          | inr e ↦ elim (Option-cases call.1) [
            | inl f ↦ inr (λ u c h. ground (arith, h, e, f), λ h. ground (arith, h, e, f))
            | inr (u, f) ↦ elim (Bool-cases up) [
              | inr g ↦ inr (λ v c h. ground (arith, h, e, f, g), λ h. ground (arith, h, e, f, g))
              | inl g ↦
                  let yes = verify_call_lem o sid u s.servers f in
                  inl (record {
                    user = u;
                    servers = call.0;
                    active = yes.0;
                    same_db = yes.1;
                    admits = ground (arith, e, f, g);
                  })
            ]
          ]
        ]

    admitted :
        (u v c : ℕ) (s : Site r mysql bcrypt)
        → (admit r mysql bcrypt server_id u s).1 ≡ serving v c
        → (v ≡ u)
          × (c ≡ s.node.next)
          × ((register_user r server_id u s.servers.world).1 ≡ ok tt)
          × ((admit r mysql bcrypt server_id u s).0.node ≡ connect u s.node)
          × ((admit r mysql bcrypt server_id u s).0.servers.world
              ≡ (register_user r server_id u s.servers.world).0)
    unfolding admit
    admitted u v c s h = elim (Result-cases (register_user r server_id u s.servers.world).1) [
      | inr (x, e) ↦ absurd (ground (arith, h, e))
      | inl (tt, e) ↦
          (ground (arith, h, e), ground (arith, h, e), e, ground (arith, e), ground (arith, e))
    ]

    unregistered :
        (u : ℕ) (s : Site r mysql bcrypt)
        → (admit r mysql bcrypt server_id u s).1 ≡ not_registered
        → ((admit r mysql bcrypt server_id u s).0.node
            ≡ (remove_client_if_match u s.node.next (connect u s.node)).0)
          × ((admit r mysql bcrypt server_id u s).0.servers.world
              ≡ (register_user r server_id u s.servers.world).0)
    unfolding admit
    unregistered u s h = elim (Result-cases (register_user r server_id u s.servers.world).1) [
      | inr (x, e) ↦ (ground (arith, e), ground (arith, e))
      | inl (done, e) ↦ absurd (ground (arith, h, e))
    ]

    -- A user whom a node begins to serve, whatever the networks do, is the owner of the active session
    -- that the request names; the table leads to the new connection, Redis routes the user to the node,
    -- and the table's invariant holds on.
    pub serve_ws_lem :
        (sid : Bytes) (o : Outcome) (up : Bool) (u c : ℕ) (s : Site r mysql bcrypt)
        → Inv s.node
        → u < 2 ^ 64
        → (serve_ws r mysql bcrypt server_id sid o up s).1 ≡ serving u c
        → IsActive r sid u s.servers.world.db
          × (lookup u (serve_ws r mysql bcrypt server_id sid o up s).0.node.clients ≡ some c)
          × (route r u (serve_ws r mysql bcrypt server_id sid o up s).0.servers.world.db
              ≡ some server_id)
          × Inv (serve_ws r mysql bcrypt server_id sid o up s).0.node
    serve_ws_lem sid o up u c s v hu h = elim (reaches sid o up s) [
      | inr out ↦ absurd (out.0 u c h)
      | inl a ↦
          let checked : Site r mysql bcrypt = record { node = s.node; servers = a.servers } in
          let done = admitted a.user u c checked (ground (arith, a.admits, h)) in
          let (u_is, c_is, ok_is, node_is, world_is) = done in
          rw (a.admits, node_is, world_is, u_is, c_is)
            (
              a.active,
              ground (arith, connect_replaces a.user a.user v),
              ground (
                arith,
                register_user_lem r server_id a.user a.user a.servers.world
                    (ground (arith, hu, u_is)) (ground (arith, hu, u_is)) ok_is,
              ),
              connect-Inv a.user v,
            )
    ]

    -- A user whose registration has failed is the owner of the active session that the request names,
    -- and is out of the table, also where it was in the table before; the others are where they were. The
    -- route of the user is as before or names the node, where nobody serves the user.
    pub serve_ws_not_registered :
        (sid : Bytes) (o : Outcome) (up : Bool) (s : Site r mysql bcrypt)
        → Inv s.node
        → (serve_ws r mysql bcrypt server_id sid o up s).1 ≡ not_registered
        → (u : ℕ) × IsActive r sid u s.servers.world.db
          × ((w : ℕ)
              → lookup w (serve_ws r mysql bcrypt server_id sid o up s).0.node.clients
                ≡ (if u == w then none else lookup w s.node.clients))
          × ((route r u (serve_ws r mysql bcrypt server_id sid o up s).0.servers.world.db
                ≡ route r u s.servers.world.db)
              ⊎ (route r u (serve_ws r mysql bcrypt server_id sid o up s).0.servers.world.db
                  ≡ some server_id))
          × Inv (serve_ws r mysql bcrypt server_id sid o up s).0.node
    unfolding route
    serve_ws_not_registered sid o up s v h = elim (reaches sid o up s) [
      | inr out ↦ absurd (out.1 h)
      | inl a ↦
          let checked : Site r mysql bcrypt = record { node = s.node; servers = a.servers } in
          let (node_is, world_is) = unregistered a.user checked (ground (arith, a.admits, h)) in
          let n = connect a.user s.node in
          let joined : lookup a.user n.clients ≡ some s.node.next =
            ground (arith, connect_replaces a.user a.user v) in
          let (p, was, match, shut, gone) =
            remove_success a.user s.node.next (connect-Inv a.user v)
              (removes a.user s.node.next n joined).0 in
          rw (a.admits, node_is, world_is)
            (
              a.user,
              a.active,
              λ w. ground (arith, gone w, connect_replaces a.user w v),
              ground (arith, a.same_db, register_route r server_id a.user a.servers.world),
              remove-Inv a.user s.node.next (connect-Inv a.user v),
            )
    ]

    -- The cleanup of a connection that the user has replaced meanwhile, on a node that serves the
    -- user, changes nothing: the new connection and its route stay.
    pub serve_ws-disconnect :
        (sid : Bytes) (o : Outcome) (up : Bool) (u c p : ℕ) (s : Site r mysql bcrypt)
        → Inv s.node
        → 0 < p
        → p < s.node.next
        → (s.node.heap p).user_id ≡ u
        → (serve_ws r mysql bcrypt server_id sid o up s).1 ≡ serving u c
        → disconnect r mysql bcrypt p (serve_ws r mysql bcrypt server_id sid o up s).0
          ≡ (serve_ws r mysql bcrypt server_id sid o up s).0
    serve_ws-disconnect sid o up u c p s v lo hi own h = elim (reaches sid o up s) [
      | inr out ↦ absurd (out.0 u c h)
      | inl a ↦
          let checked : Site r mysql bcrypt = record { node = s.node; servers = a.servers } in
          let done = admitted a.user u c checked (ground (arith, a.admits, h)) in
          let now = (serve_ws r mysql bcrypt server_id sid o up s).0 in
          let node_is : now.node ≡ connect u s.node = ground (arith, a.admits, done.0, done.3) in
          disconnect_unchanged r mysql bcrypt p now (rw node_is (connect-cleanup u p v lo hi own))
    ]

-- ===== src/Connect/Registry/Routes.antt =====
-- The route of a user under registration and unregistration.
use likegochat.Prelude.{
  ℕ, ◌≡◌, ◌<◌, ◌^◌, Option, some, none, ◌==◌, if◌then◌else◌, inl, arith, inr, [], ◌⊎◌,
}
use likegochat.Prelude.Bytes.{Bytes, bytes_eq, bytes_eq_refl}
use likegochat.Prelude.Decimal.{format_int-eq}
use likegochat.Redis.{Redis, World, ok}
use likegochat.Redis.Trips.{Writes, orders}
use likegochat.Connect.Registry.{
  user_server_key, register_user, unregister_user, no_reply, route_ttl,
}

user_server_key-eq :
    (u v : ℕ)
    → u < 2 ^ 64
    → v < 2 ^ 64
    → bytes_eq (user_server_key u) (user_server_key v) ≡ (u == v)
unfolding user_server_key bytes_eq
user_server_key-eq u v hu hv = format_int-eq u v hu hv

module _ (r : Redis) where
  -- The node that a user is routed to.
  unfoldable pub route : ℕ → r.State → Option Bytes
  route u s = r.get (user_server_key u) s

  register-Writes :
      (server_id : Bytes) (u : ℕ) (w : World r)
      → Writes no_reply
          (r.set (user_server_key u) server_id route_ttl)
          (register_user r server_id u)
          w
  unfolding register_user
  register-Writes server_id u w =
      orders no_reply (r.set (user_server_key u) server_id route_ttl) w.db w.net

  unregister-Writes :
      (u : ℕ) (w : World r) → Writes no_reply (r.del (user_server_key u)) (unregister_user r u) w
  unfolding unregister_user
  unregister-Writes u w = orders no_reply (r.del (user_server_key u)) w.db w.net

  -- Whatever the network does, a registration routes the user to the node or leaves the route.
  pub register_route :
      (server_id : Bytes) (u : ℕ) (w : World r)
      → (route u (register_user r server_id u w).0.db ≡ route u w.db)
        ⊎ (route u (register_user r server_id u w).0.db ≡ some server_id)
  unfolding route
  register_route server_id u w =
      let key = user_server_key u in
      let set : r.get key (r.set key server_id route_ttl w.db) ≡ some server_id =
        ground (arith, r.get-set key key server_id route_ttl w.db, bytes_eq_refl key) in
      let script = register-Writes server_id u w in
      elim script.answer [
        | inl i ↦ inr (ground (arith, i.0, i.1, set))
        | inr i ↦ elim i.1 [
          | inl wrote ↦ inr (ground (arith, i.0, wrote, set))
          | inr kept ↦ inl (ground (arith, i.0, kept))
        ]
      ]

  pub unregister_route :
      (u : ℕ) (w : World r) → w.net ≡ [] → route u (unregister_user r u w).0.db ≡ none
  unfolding route unregister_user
  unregister_route u w quiet =
      let key = user_server_key u in
      ground (arith, quiet, r.get-del key key w.db, bytes_eq_refl key)

  -- A registration that succeeds routes its user to the node, and it leaves every other route.
  pub register_user_lem :
      (server_id : Bytes) (u v : ℕ) (w : World r)
      → u < 2 ^ 64
      → v < 2 ^ 64
      → (register_user r server_id u w).1 ≡ ok tt
      → route v (register_user r server_id u w).0.db
        ≡ (if u == v then some server_id else route v w.db)
  unfolding route
  register_user_lem server_id u v w hu hv h =
      let script = register-Writes server_id u w in
      elim script.answer [
        | inl i ↦ ground (
          arith,
          i.0,
          i.1,
          r.get-set (user_server_key u) (user_server_key v) server_id route_ttl w.db,
          user_server_key-eq u v hu hv,
        )
        | inr i ↦ absurd (ground (arith, i.0, h))
      ]

  -- An unregistration that succeeds deletes the user's route, whichever node has registered it: also
  -- that of another node, to which the user has moved meanwhile.
  pub register-unregister :
      (other : Bytes) (u : ℕ) (w : World r)
      → u < 2 ^ 64
      → (register_user r other u w).1 ≡ ok tt
      → (unregister_user r u (register_user r other u w).0).1 ≡ ok tt
      → (route u (register_user r other u w).0.db ≡ some other)
        × (route u (unregister_user r u (register_user r other u w).0).0.db ≡ none)
  unfolding route
  register-unregister other u w hu h k =
      let moved = (register_user r other u w).0 in
      let script = unregister-Writes u moved in
      (
        ground (arith, register_user_lem other u u w hu hu h),
        elim script.answer [
          | inl i ↦ ground (
            arith,
            i.0,
            i.1,
            r.get-del (user_server_key u) (user_server_key u) moved.db,
            user_server_key-eq u u hu hu,
          )
          | inr i ↦ absurd (ground (arith, i.0, k))
        ],
      )

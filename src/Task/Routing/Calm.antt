-- ===== src/Task/Routing/Calm.antt =====
-- The reads of the routing where the network works.
use likegochat.Prelude.{
  ℕ, ◌≡◌, ◌<◌, ◌^◌, ◌⊎◌, refl, true, false, List, [], ◌∷◌, is_empty, arith, Bool-cases, inl, inr,
  map, mem, ◌∙◌, sym,
}
use likegochat.Prelude.Bytes.{Bytes, bytes_eq_iff, codes}
use likegochat.Prelude.Decimal.{format_int, format_int-eq}
use likegochat.Prelude.Dicts.{Dict}
use likegochat.Redis.{Redis, World, ok, err, mem_bytes}
use likegochat.Logic.GroupCache.{placeholder}
use likegochat.Task.Consumer.{ConsumeError, cache_missed, no_members, no_online_users, routing_key}
use likegochat.Task.Routing.{
  get_online_routing_map, load_group_online_member_ids, smembers, mget, members_key, parse_members,
  is_placeholder, add_targets, load_group_node_ids, connect_nodes_key,
}
use likegochat.Task.Routing.Members.{AreNumbers, parse_members_lem}

placeholder_printed : format_int placeholder ≡ codes "-1"
unfolding format_int
placeholder_printed = refl

only_placeholder :
    (ss : List Bytes) (u : ℕ)
    → u < 2 ^ 63
    → is_placeholder ss ≡ true
    → mem_bytes (format_int u) ss ≡ false
unfolding is_placeholder
only_placeholder [] u hu h = cc
only_placeholder (s ∷ []) u hu h =
    let same : s ≡ format_int placeholder =
      (bytes_eq_iff s (codes "-1")).0 h ∙ sym placeholder_printed in
    rw same (ground (arith, format_int-eq placeholder u))
only_placeholder (s ∷ (s' ∷ ss)) u hu h = absurd (ground (arith, h))

module _ (r : Redis) where
  -- With no fault of the network left, a routing map is returned.
  pub get_online_routing_map_calm :
      (us : List ℕ) (w : World r)
      → w.net ≡ []
      → ((m : Dict (List ℕ)) × (get_online_routing_map r us w ≡ (w, ok m)))
  unfolding get_online_routing_map mget
  get_online_routing_map_calm [] w calm = ([], ground (arith, calm))
  get_online_routing_map_calm (u ∷ us) w calm = (
    add_targets (u ∷ us) (map (λ k. r.get k w.db) (map routing_key (u ∷ us))) [],
    ground (arith, calm),
  )

  -- What the cache says of a group.
  pub data Says (g : ℕ) (w : World r) : Type 0 where
    maps : (m : Dict (List ℕ)) → load_group_online_member_ids r g w ≡ (w, ok m) → Says g w
    misses : load_group_online_member_ids r g w ≡ (w, err cache_missed) → Says g w
    nobody :
        (x : ConsumeError)
        → load_group_online_member_ids r g w ≡ (w, err x)
        → (x ≡ no_members) ⊎ (x ≡ no_online_users)
        → is_empty (r.members (members_key g) w.db) ≡ false
        → ((u : ℕ) → u < 2 ^ 63 → mem_bytes (format_int u) (r.members (members_key g) w.db) ≡ false)
        → Says g w

  pub load_group_online_member_ids_calm :
      (g : ℕ) (w : World r) → w.net ≡ [] → AreNumbers (r.members (members_key g) w.db) → Says g w
  unfolding load_group_online_member_ids smembers
  load_group_online_member_ids_calm g w calm num =
      let raw = r.members (members_key g) w.db in
      elim (Bool-cases (is_empty raw)) [
        | inl f ↦ misses (ground (arith, calm, f))
        | inr f ↦ elim (Bool-cases (is_placeholder raw)) [
          | inl p ↦
              nobody no_members (ground (arith, calm, f, p)) (inl refl) f
                (λ u hu. only_placeholder raw u hu p)
          | inr p ↦ elim (Bool-cases (is_empty (parse_members raw))) [
            | inl q ↦ nobody no_online_users (ground (arith, calm, f, p, q)) (inr refl) f (λ u hu.
                ground (
                  arith,
                  q,
                  parse_members_lem raw u (omega arith) num,
                  none_in u (parse_members raw),
                ))
            | inr q ↦
                let (m, e) = get_online_routing_map_calm (parse_members raw) w calm in
                maps m (ground (arith, calm, f, p, q, e))
          ]
        ]
      ]
    where
      none_in : (u : ℕ) (us : List ℕ) → is_empty us ≡ true → mem u us ≡ false
      none_in u [] h = refl
      none_in u (x ∷ us) h = cc

  pub load_group_node_ids_calm :
      (w : World r)
      → w.net ≡ []
      → load_group_node_ids r w ≡ (w, ok (r.members connect_nodes_key w.db))
  unfolding load_group_node_ids smembers
  load_group_node_ids_calm w calm = ground (arith, calm)

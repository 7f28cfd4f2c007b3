-- ===== src/Task/Routing/Members.antt =====
-- The routing map of a group against the table of its members.
use likegochat.Prelude.{
  ℕ, ◌≡◌, refl, ◌∙◌, ap, ◌^◌, ◌<◌, true, false, ◌&&◌, List, [], ◌∷◌, some, is_empty, arith,
  Bool-cases, inl, inr, mem,
}
use likegochat.Prelude.Bytes.{Bytes, bytes_eq_refl}
use likegochat.Prelude.Decimal.{format_int, parse_int, parse_int-format_int, format_int-eq}
use likegochat.Prelude.Dicts.{Dict}
use likegochat.Redis.{Redis, World, ok, mem_bytes}
use likegochat.Redis.Trips.{Reads, asks}
use likegochat.Connect.Registry.Routes.{route}
use likegochat.Logic.GroupCache.{group_key}
use likegochat.Logic.GroupCache.Coherence.{IsCoherent}
use likegochat.Task.Consumer.{redis_failed}
use likegochat.Task.Routing.{
  targets, parse_members, is_placeholder, load_group_online_member_ids, smembers, members_key,
  get_online_routing_map,
}
use likegochat.Task.Routing.Targets.{names, get_online_routing_map_lem, mem-routed_to}

-- The strings are printed numbers.
abbrev pub AreNumbers : List Bytes → Type 0
AreNumbers ss = (v : Bytes) → mem_bytes v ss ≡ true → ((x : ℕ) × (x < 2 ^ 64) × (v ≡ format_int x))

pub parse_members_lem :
    (ss : List Bytes) (u : ℕ)
    → u < 2 ^ 64
    → AreNumbers ss
    → mem u (parse_members ss) ≡ mem_bytes (format_int u) ss
unfolding parse_members
parse_members_lem [] u hu c = refl
parse_members_lem (s ∷ ss) u hu c =
    let one = c s (ground (arith, bytes_eq_refl s)) in
    let parsed : parse_int s ≡ some one.0 = ap parse_int one.2 ∙ parse_int-format_int one.0 one.1 in
    let rest = parse_members_lem ss u hu (λ v h. c v (ground (arith, h))) in
    ground (arith, parsed, rest, one.2, format_int-eq one.0 u one.1 hu)

pub first_member : (l : List Bytes) → is_empty l ≡ false → ((v : Bytes) × (mem_bytes v l ≡ true))
first_member [] e = cc
first_member (v ∷ l) e = (v, ground (arith, bytes_eq_refl v))

module _ (r : Redis) (rows : ℕ → List ℕ) where
  smembers-Reads :
      (key : Bytes) (w : World r) → Reads redis_failed (r.members key w.db) (smembers r key) w
  unfolding smembers
  smembers-Reads key w = asks redis_failed (r.members key) w.db w.net

  -- A routing map that is returned for a group is that of the members which the cache has.
  pub load_parsed :
      (g : ℕ) (w : World r) (m : Dict (List ℕ))
      → (load_group_online_member_ids r g w).1 ≡ ok m
      → ((after : World r) × (after.db ≡ w.db)
          × ((get_online_routing_map r (parse_members (r.members (members_key g) w.db)) after).1
              ≡ ok m)
          × (is_empty (r.members (members_key g) w.db) ≡ false))
  unfolding load_group_online_member_ids
  load_parsed g w m h =
      let raw = r.members (members_key g) w.db in
      let read = smembers-Reads (members_key g) w in
      elim read.answer [
        | inr e ↦ absurd (ground (arith, e, h))
        | inl e ↦ elim (Bool-cases (is_empty raw)) [
          | inl f ↦ absurd (ground (arith, e, f, h))
          | inr f ↦ elim (Bool-cases (is_placeholder raw)) [
            | inl p ↦ absurd (ground (arith, e, f, p, h))
            | inr p ↦ elim (Bool-cases (is_empty (parse_members raw))) [
              | inl q ↦ absurd (ground (arith, e, f, p, q, h))
              | inr q ↦ (read.after, read.same, ground (arith, e, f, p, q, h), f)
            ]
          ]
        ]
      ]

  -- With a cache that agrees with the table and holds printed numbers only, group ids below 2^64
  -- and a user id below 2^63, a routing map that is returned for a group sends to a node exactly
  -- the members of the group whose route names it, whatever the network does.
  pub load_group_online_member_ids_lem :
      (g u : ℕ) (server_id : Bytes) (w : World r) (m : Dict (List ℕ))
      → g < 2 ^ 64
      → u < 2 ^ 63
      → IsCoherent r rows w.db
      → AreNumbers (r.members (group_key g) w.db)
      → (load_group_online_member_ids r g w).1 ≡ ok m
      → mem u (targets server_id m) ≡ (mem u (rows g) && names server_id (route r u w.db))
  unfolding members_key group_key
  load_group_online_member_ids_lem g u sid w m hg hu coh num h =
      let raw = r.members (members_key g) w.db in
      let (after, same, routed, some_raw) = load_parsed g w m h in
      let listed = first_member raw some_raw in
      ap (mem u) (get_online_routing_map_lem r (parse_members raw) after m sid routed).0
      ∙ mem-routed_to r sid u (parse_members raw) after.db
      ∙ ground (
        arith,
        same,
        parse_members_lem raw u (omega arith) num,
        coh.cached g u listed.0 hg hu listed.1,
      )

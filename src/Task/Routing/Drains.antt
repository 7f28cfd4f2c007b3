-- ===== src/Task/Routing/Drains.antt =====
-- The reads of the routing fail only where the network does.
use likegochat.Prelude.{
  ℕ, ◌≡◌, ◌<◌, ◌≤◌, Bool, true, false, List, [], ◌∷◌, is_empty, length, arith, Bool-cases, inl, inr,
  map,
}
use likegochat.Prelude.Bytes.{Bytes}
use likegochat.Redis.{Redis, World, err, Result-cases}
use likegochat.Redis.Trips.{Drains, drains}
use likegochat.Task.Consumer.{
  ConsumeError, redis_failed, cache_missed, no_members, no_online_users, routing_key,
}
use likegochat.Task.Routing.{
  get_online_routing_map, load_group_online_member_ids, smembers, mget, members_key, parse_members,
  is_placeholder,
}

-- The errors that say what the cache has.
abbrev pub is_answer : ConsumeError → Bool
is_answer cache_missed = true
is_answer no_members = true
is_answer no_online_users = true
is_answer e = false

module _ (r : Redis) where
  smembers-Drains : (key : Bytes) (w : World r) → Drains redis_failed (smembers r key) w
  unfolding smembers
  smembers-Drains key w = drains redis_failed (λ s. (s, r.members key s)) w

  mget-Drains : (ks : List Bytes) (w : World r) → Drains redis_failed (mget r ks) w
  unfolding mget
  mget-Drains ks w = drains redis_failed (λ s. (s, map (λ k. r.get k s) ks)) w

  pub get_online_routing_map-Drains :
      (us : List ℕ) (w : World r) → Drains redis_failed (get_online_routing_map r us) w
  unfolding get_online_routing_map
  get_online_routing_map-Drains [] w = record {
    bounded = omega arith;
    failed = λ x h. absurd (ground (arith, h));
  }
  get_online_routing_map-Drains (u ∷ us) w =
      let read = mget-Drains (map routing_key (u ∷ us)) w in
      elim (Result-cases (mget r (map routing_key (u ∷ us)) w).1) [
        | inl (a, e) ↦ record {
          bounded = ground (arith, e, read.bounded);
          failed = λ x h. absurd (ground (arith, e, h));
        }
        | inr (x, e) ↦ record {
          bounded = ground (arith, e, read.bounded);
          failed = λ y h. ground (arith, e, read.failed x e);
        }
      ]

  pub record LoadDrains (group_id : ℕ) (w : World r) : Type 0 where
    pub bounded : length (load_group_online_member_ids r group_id w).0.net ≤ length w.net
    pub failed :
        (x : ConsumeError)
        → (load_group_online_member_ids r group_id w).1 ≡ err x
        → is_answer x ≡ false
        → length (load_group_online_member_ids r group_id w).0.net < length w.net

  pub load_group_online_member_ids-LoadDrains : (g : ℕ) (w : World r) → LoadDrains g w
  unfolding load_group_online_member_ids
  load_group_online_member_ids-LoadDrains g w =
      let read = smembers-Drains (members_key g) w in
      elim (Result-cases (smembers r (members_key g) w).1) [
        | inr (y, e) ↦ record {
          bounded = ground (arith, e, read.bounded);
          failed = λ x h a. ground (arith, e, read.failed y e);
        }
        | inl (raw, e) ↦
            let next =
              get_online_routing_map-Drains (parse_members raw) (smembers r (members_key g) w).0 in
            elim (Bool-cases (is_empty raw)) [
              | inl f ↦ record {
                bounded = ground (arith, e, f, read.bounded);
                failed = λ x h a. absurd (ground (arith, e, f, h, a));
              }
              | inr f ↦ elim (Bool-cases (is_placeholder raw)) [
                | inl p ↦ record {
                  bounded = ground (arith, e, f, p, read.bounded);
                  failed = λ x h a. absurd (ground (arith, e, f, p, h, a));
                }
                | inr p ↦ elim (Bool-cases (is_empty (parse_members raw))) [
                  | inl q ↦ record {
                    bounded = ground (arith, e, f, p, q, read.bounded);
                    failed = λ x h a. absurd (ground (arith, e, f, p, q, h, a));
                  }
                  | inr q ↦ record {
                    bounded = ground (arith, e, f, p, q, read.bounded, next.bounded);
                    failed = λ x h a. ground (arith, e, f, p, q, h, read.bounded, next.failed x);
                  }
                ]
              ]
            ]
      ]

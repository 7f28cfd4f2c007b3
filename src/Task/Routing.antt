-- ===== src/Task/Routing.antt =====
-- The routing of a group message in internal/task/consumer.go: the members of a group, and the connect
-- node of each that is online.
pub mod Targets
pub mod Members
pub mod Calm
pub mod Drains
mod Tests
use likegochat.Prelude.{
  ℕ, Bool, true, false, List, [], ◌∷◌, ◌++◌, Option, none, some, map, is_empty, if◌then◌else◌,
}
use likegochat.Prelude.Bytes.{Bytes, codes, bytes_eq}
use likegochat.Prelude.Decimal.{format_int, parse_int}
use likegochat.Prelude.Dicts.{Dict, find, put}
use likegochat.Redis.{Redis, M, ◌>>=◌, pure, fail, round_trip}
use likegochat.Task.Consumer.{
  ConsumeError, redis_failed, cache_missed, no_members, no_online_users, routing_key,
}

abbrev pub group_members_key_prefix : Bytes
group_members_key_prefix = codes "group_members:"

unfoldable pub members_key : ℕ → Bytes
members_key group_id = group_members_key_prefix ++ format_int group_id

abbrev pub connect_nodes_key : Bytes
connect_nodes_key = codes "connect_nodes:"

-- The users of a node in the map, none where it is not in it.
unfoldable pub targets : Bytes → Dict (List ℕ) → List ℕ
targets server_id m = elim (find server_id m) [ none ↦ [] | some us ↦ us ]

-- The loop over the answer of `MGet`; a value that is nil or empty is passed over.
pub add_targets : List ℕ → List (Option Bytes) → Dict (List ℕ) → Dict (List ℕ)
add_targets [] vals m = m
add_targets (u ∷ us) [] m = m
add_targets (u ∷ us) (none ∷ vals) m = add_targets us vals m
add_targets (u ∷ us) (some sid ∷ vals) m =
    add_targets us vals (if is_empty sid then m else put sid (targets sid m ++ u ∷ []) m)

-- The members that are numbers.
pub parse_members : List Bytes → List ℕ
parse_members [] = []
parse_members (s ∷ ss) =
    let rest = parse_members ss in elim (parse_int s) [ none ↦ rest | some u ↦ u ∷ rest ]

-- Whether the only member is the placeholder.
pub is_placeholder : List Bytes → Bool
is_placeholder [] = false
is_placeholder (s ∷ []) = bytes_eq s (codes "-1")
is_placeholder (s ∷ (s' ∷ ss)) = false

module _ (r : Redis) where
  pub smembers : Bytes → M r ConsumeError (List Bytes)
  smembers key = round_trip redis_failed (λ s. (s, r.members key s))

  pub mget : List Bytes → M r ConsumeError (List (Option Bytes))
  mget ks = round_trip redis_failed (λ s. (s, map (λ k. r.get k s) ks))

  pub get_online_routing_map : List ℕ → M r ConsumeError (Dict (List ℕ))
  unfolding add_targets mget
  get_online_routing_map user_ids =
      if is_empty user_ids
      then pure []
      else do vals ← mget (map routing_key user_ids); pure (add_targets user_ids vals [])

  pub load_group_online_member_ids : ℕ → M r ConsumeError (Dict (List ℕ))
  unfolding get_online_routing_map parse_members is_placeholder smembers
  load_group_online_member_ids group_id = do
    raw ← smembers (members_key group_id)
    if is_empty raw
        then fail cache_missed
        else if is_placeholder raw
        then fail no_members
        else let user_ids = parse_members raw in
          if is_empty user_ids then fail no_online_users else get_online_routing_map user_ids

  pub load_group_node_ids : M r ConsumeError (List Bytes)
  unfolding smembers
  load_group_node_ids = smembers connect_nodes_key

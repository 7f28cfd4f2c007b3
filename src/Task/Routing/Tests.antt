-- ===== src/Task/Routing/Tests.antt =====
-- The routing of a concrete group.
use likegochat.Prelude.{
  ℕ, ◌≡◌, ◌&&◌, List, [], ◌∷◌, refl, arith, mem, map, Bool-cases, inl, inr, sym,
}
use likegochat.Prelude.Bytes.{bytes_eq, bytes_eq_iff}
use likegochat.Prelude.Decimal.{format_int, parse_int}
use likegochat.Prelude.Dicts.{Dict, IsDict, find, put}
use likegochat.Redis.{World, ok}
use likegochat.Redis.Memory.{memory}
use likegochat.Connect.Registry.{user_server_key}
use likegochat.Connect.Registry.Routes.{route}
use likegochat.Logic.GroupCache.{group_key, rebuild}
use likegochat.Task.Consumer.{routing_key}
use likegochat.Task.Routing.{
  targets, get_online_routing_map, load_group_online_member_ids, members_key,
}
use likegochat.Task.Routing.Targets.{names, routed_to, get_online_routing_map_lem}
use likegochat.Task.Routing.Members.{AreNumbers, load_group_online_member_ids_lem}
use likegochat.Task.Samples.{node_b, routed, group_rows, cached, cached-IsCoherent}

abbrev world : World memory
world = record { db = routed; net = [] }

abbrev on_b : Dict (List ℕ)
on_b = (node_b, 7 ∷ []) ∷ []

maps_two : (get_online_routing_map memory (7 ∷ 9 ∷ []) world).1 ≡ ok on_b
unfolding get_online_routing_map routing_key user_server_key format_int bytes_eq put targets find
maps_two = refl

get_online_routing_map_lem_example :
    (targets node_b on_b ≡ routed_to memory node_b (7 ∷ 9 ∷ []) routed) × IsDict on_b
get_online_routing_map_lem_example =
    get_online_routing_map_lem memory (7 ∷ 9 ∷ []) world on_b node_b maps_two

abbrev cached_world : World memory
cached_world = record { db = cached; net = [] }

members_cached : memory.members (group_key 3) cached ≡ map format_int (7 ∷ 9 ∷ [])
unfolding rebuild bytes_eq group_key format_int
members_cached = refl

printed-AreNumbers : AreNumbers (map format_int (7 ∷ 9 ∷ []))
printed-AreNumbers v h = elim (Bool-cases (bytes_eq (format_int 7) v)) [
  | inl e ↦ (7, omega arith, sym ((bytes_eq_iff (format_int 7) v).0 e))
  | inr e ↦ (9, omega arith, sym ((bytes_eq_iff (format_int 9) v).0 (ground (arith, h, e))))
]

loads_two : (load_group_online_member_ids memory 3 cached_world).1 ≡ ok on_b
unfolding load_group_online_member_ids rebuild members_key group_key routing_key user_server_key
    format_int parse_int bytes_eq put targets find
loads_two = refl

load_group_online_member_ids_lem_example :
    mem 7 (targets node_b on_b) ≡ (mem 7 (group_rows 3) && names node_b (route memory 7 cached))
load_group_online_member_ids_lem_example =
    load_group_online_member_ids_lem memory group_rows 3 7 node_b cached_world on_b (omega arith)
      (omega arith) cached-IsCoherent (rw members_cached printed-AreNumbers) loads_two

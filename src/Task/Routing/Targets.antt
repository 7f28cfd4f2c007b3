-- ===== src/Task/Routing/Targets.antt =====
-- The routing map against a description of it: the users of a node are those whose route names it.
use likegochat.Redis.Trips.{Reads, asks}
use mathlib.Core.List.{append-nil, append_assoc}
use likegochat.Prelude.{
  ℕ, ◌≡◌, refl, sym, ◌∙◌, ap, Bool, false, ◌&&◌, not, List, [], ◌∷◌, ◌++◌, Option, none, some, map,
  is_empty, if◌then◌else◌, arith, Bool-cases, inl, inr, mem, ◌==◌,
}
use likegochat.Prelude.Bytes.{Bytes, bytes_eq, bytes_eq_iff}
use likegochat.Prelude.Dicts.{Dict, find, put, find-put, IsDict, put-IsDict}
use likegochat.Redis.{Redis, World, ok}
use likegochat.Connect.Registry.{user_server_key}
use likegochat.Connect.Registry.Routes.{route}
use likegochat.Task.Consumer.{routing_key, redis_failed}
use likegochat.Task.Routing.{targets, add_targets, get_online_routing_map, mget}

-- Whether an answer of `MGet` is the address of a node.
abbrev pub names : Bytes → Option Bytes → Bool
names server_id none = false
names server_id (some sid) = not (is_empty sid) && bytes_eq sid server_id

-- The users of a list whose answer is the address of a node.
abbrev pub those : Bytes → List ℕ → List (Option Bytes) → List ℕ
those server_id [] vals = []
those server_id (u ∷ us) [] = []
those server_id (u ∷ us) (v ∷ vals) =
    let rest = those server_id us vals in if names server_id v then u ∷ rest else rest

targets-put :
    (k j : Bytes) (us : List ℕ) (m : Dict (List ℕ))
    → targets j (put k us m) ≡ (if bytes_eq k j then us else targets j m)
unfolding targets
targets-put k j us m = ground (arith, find-put k j us m)

add_targets_lem :
    (server_id : Bytes) (us : List ℕ) (vals : List (Option Bytes)) (m : Dict (List ℕ))
    → targets server_id (add_targets us vals m) ≡ targets server_id m ++ those server_id us vals
unfolding add_targets
add_targets_lem k [] vals m = sym (append-nil (targets k m))
add_targets_lem k (u ∷ us) [] m = sym (append-nil (targets k m))
add_targets_lem k (u ∷ us) (none ∷ vals) m = add_targets_lem k us vals m
add_targets_lem k (u ∷ us) (some sid ∷ vals) m = elim (Bool-cases (is_empty sid)) [
  | inl e ↦ ground (arith, e, add_targets_lem k us vals m)
  | inr e ↦
      let next = put sid (targets sid m ++ u ∷ []) m in
      ground (
        arith,
        e,
        add_targets_lem k us vals next,
        targets-put sid k (targets sid m ++ u ∷ []) m,
        bytes_eq_iff sid k,
        append_assoc (targets k m) (u ∷ []) (those k us vals),
      )
]

add_targets-IsDict :
    (us : List ℕ) (vals : List (Option Bytes)) (m : Dict (List ℕ))
    → IsDict m
    → IsDict (add_targets us vals m)
unfolding add_targets
add_targets-IsDict [] vals m d = d
add_targets-IsDict (u ∷ us) [] m d = d
add_targets-IsDict (u ∷ us) (none ∷ vals) m d = add_targets-IsDict us vals m d
add_targets-IsDict (u ∷ us) (some sid ∷ vals) m d = elim (Bool-cases (is_empty sid)) [
  | inl e ↦ rw e (add_targets-IsDict us vals m d)
  | inr e ↦ rw e (
      add_targets-IsDict us vals (put sid (targets sid m ++ u ∷ []) m)
        (put-IsDict sid (targets sid m ++ u ∷ []) m d))
]

module _ (r : Redis) where
  -- The users of a list who are routed to a node, in the order of the list.
  abbrev pub routed_to : Bytes → List ℕ → r.State → List ℕ
  routed_to server_id [] s = []
  routed_to server_id (u ∷ us) s =
      let rest = routed_to server_id us s in
      if names server_id (route r u s) then u ∷ rest else rest

  those_routed :
      (server_id : Bytes) (us : List ℕ) (s : r.State)
      → those server_id us (map (λ k. r.get k s) (map routing_key us)) ≡ routed_to server_id us s
  unfolding routing_key route user_server_key
  those_routed server_id [] s = refl
  those_routed server_id (u ∷ us) s = ground (arith, those_routed server_id us s)

  pub mem-routed_to :
      (server_id : Bytes) (u : ℕ) (us : List ℕ) (s : r.State)
      → mem u (routed_to server_id us s) ≡ (mem u us && names server_id (route r u s))
  mem-routed_to server_id u [] s = refl
  mem-routed_to server_id u (x ∷ us) s = elim (Bool-cases (x == u)) [
    | inl e ↦
        let same : x ≡ u = ground (arith, e) in
        ground (arith, e, mem-routed_to server_id u us s, ap (λ z. route r z s) same)
    | inr e ↦ ground (arith, e, mem-routed_to server_id u us s)
  ]

  mget-Reads :
      (us : List ℕ) (w : World r)
      → Reads redis_failed
          (map (λ k. r.get k w.db) (map routing_key us))
          (mget r (map routing_key us))
          w
  unfolding mget
  mget-Reads us w = asks redis_failed (λ s. map (λ k. r.get k s) (map routing_key us)) w.db w.net

  -- Whatever the network does, a routing map that is returned has for each node the users of the list
  -- whose route names it, in the order of the list, and no node twice.
  pub get_online_routing_map_lem :
      (us : List ℕ) (w : World r) (m : Dict (List ℕ)) (server_id : Bytes)
      → (get_online_routing_map r us w).1 ≡ ok m
      → (targets server_id m ≡ routed_to server_id us w.db) × IsDict m
  unfolding get_online_routing_map targets find
  get_online_routing_map_lem [] w m sid h =
      let built : [] ≡ m = ground (arith, h) in rw (← built) (refl, tt)
  get_online_routing_map_lem (u ∷ us) w m sid h =
      let read = mget-Reads (u ∷ us) w in
      elim read.answer [
        | inr e ↦ absurd (ground (arith, e, h))
        | inl e ↦
            let vals = map (λ k. r.get k w.db) (map routing_key (u ∷ us)) in
            let built : add_targets (u ∷ us) vals [] ≡ m = ground (arith, e, h) in
            rw (← built) (
              add_targets_lem sid (u ∷ us) vals [] ∙ those_routed sid (u ∷ us) w.db,
              add_targets-IsDict (u ∷ us) vals [] tt,
            )
      ]

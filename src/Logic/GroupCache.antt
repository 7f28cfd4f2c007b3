-- ===== src/Logic/GroupCache.antt =====
-- `IsGroupMember` of internal/logic/store.go: the members of a group are cached in a Redis set, which
-- is filled from the table `group_members`.
pub mod Coherence
pub mod Answers
pub mod Refresh
pub mod Drains
use likegochat.Prelude.{
  ℕ, List, [], ◌∷◌, ◌++◌, Option, none, some, Bool, true, false, if◌then◌else◌, not, ◌||◌, map, mem,
  is_empty, ◌-◌, ◌^◌, ◌==◌,
}
use likegochat.Prelude.Bytes.{Bytes, codes}
use likegochat.Prelude.Decimal.{format_int}
use likegochat.Redis.{
  Redis, M, mem_bytes, ◌>>=◌, ◌>>◌, pure, fail, round_trip, World, Result, ok, err,
}
use likegochat.Logic.Error.{Error, redis_error, db_error, invalid_group_id}

abbrev pub redis_group_user_prefix : Bytes
redis_group_user_prefix = codes "group_members:"

unfoldable pub group_key : ℕ → Bytes
group_key group_id = redis_group_user_prefix ++ format_int group_id

-- The placeholder of a group without members, -1.
abbrev pub placeholder : ℕ
placeholder = 2 ^ 64 - 1

-- `5*time.Minute` and `24*time.Hour`, in seconds.
abbrev pub short_ttl : ℕ
short_ttl = 300

abbrev pub long_ttl : ℕ
long_ttl = 86400

abbrev pub is_some : Option Bytes → Bool
is_some none = false
is_some (some t) = true

module _ (r : Redis) where
  pub sismember : Bytes → Bytes → M r Error Bool
  sismember key v = round_trip redis_error (λ s. (s, mem_bytes v (r.members key s)))

  pub exists_key : Bytes → M r Error Bool
  exists_key key =
      round_trip redis_error (λ s. (s, not (is_empty (r.members key s)) || is_some (r.get key s)))

  -- The pipeline that fills the cache, in one transaction.
  unfoldable pub rebuild : ℕ → List ℕ → r.State → r.State
  rebuild group_id members s =
      let key = group_key group_id in
      let cleared = r.del key s in
      if is_empty members
      then r.expire key short_ttl (r.sadd key (format_int placeholder ∷ []) cleared)
      else r.expire key long_ttl (r.sadd key (map format_int members) cleared)

  pub run_pipeline : (r.State → r.State) → M r Error (Unit {0})
  run_pipeline f = round_trip redis_error (λ s. (f s, tt))

  -- The error of the pipeline is only logged.
  pub fill_cache : ℕ → List ℕ → World r → World r
  unfolding rebuild run_pipeline
  fill_cache group_id members w = (run_pipeline (rebuild group_id members) w).0

  -- The rows of the query, if the database answers it: the user ids of a group with status 0.
  pub load_members : (ℕ → Option (List ℕ)) → ℕ → M r Error (List ℕ)
  unfolding fill_cache
  load_members group_members group_id w = elim (group_members group_id) [
    | none ↦ (w, err db_error)
    | some members ↦ (fill_cache group_id members w, ok members)
  ]

  unfoldable pub is_group_member : (ℕ → Option (List ℕ)) → ℕ → ℕ → M r Error Bool
  unfolding sismember exists_key load_members
  is_group_member group_members group_id user_id = do
    is_member ← sismember (group_key group_id) (format_int user_id)
    if is_member then pure true else do
      found ← exists_key (group_key group_id)
      if found
          then pure false
          else do members ← load_members group_members group_id; pure (mem user_id members)

  -- `RefreshGroupMembersCache` of internal/logic/groupserver.go. The pipeline of a group without
  -- members may fail unnoticed, that of another group not.
  unfoldable pub refresh_group_members_cache : (ℕ → Option (List ℕ)) → ℕ → M r Error (List ℕ)
  unfolding fill_cache run_pipeline rebuild
  refresh_group_members_cache group_members group_id w =
      if group_id == 0 then (w, err invalid_group_id) else elim (group_members group_id) [
        | none ↦ (w, err db_error)
        | some members ↦
            let written = run_pipeline (rebuild group_id members) w in
            if is_empty members
            then (fill_cache group_id members w, ok [])
            else (written.0, elim written.1 [ err e ↦ err e | ok done ↦ ok members ])
      ]

-- ===== src/Task/Group/Refreshes.antt =====
-- What an attempt at a group message uses up where the cache is refreshed.
use likegochat.Task.Group.Attempts.{
  to_come, Uses, later-Uses, fails-Uses, succeeds-Uses, push_each-Uses,
}
use likegochat.Prelude.{
  ℕ, ◌≡◌, ◌<◌, ◌≤◌, ◌==◌, Bool, false, List, [], ◌∷◌, Option, none, some, is_empty, arith,
  Bool-cases, Option-cases, List-cases, inl, inr, refl,
}
use likegochat.Prelude.Bytes.{Bytes}
use likegochat.Prelude.Dicts.{Dict}
use likegochat.Redis.{Redis, Result, Result-cases, ok, err, Outcome, delivered, refused, reply_lost}
use likegochat.Logic.ChatServer.{GroupMessage}
use likegochat.Logic.GroupCache.{refresh_group_members_cache}
use likegochat.Logic.GroupCache.Drains.{refresh_group_members_cache-Drains}
use likegochat.Task.Consumer.{
  Task, ConsumeError, redis_failed, rpc_failed, unmarshal_failed, expired, cache_missed, no_members,
  no_online_users, db_nil, db_failed,
}
use likegochat.Task.Routing.{get_online_routing_map, load_group_online_member_ids}
use likegochat.Task.Routing.Drains.{
  get_online_routing_map-Drains, load_group_online_member_ids-LoadDrains, is_answer,
}
use likegochat.Task.Group.{
  refresh_reached, refresh_call, push_refreshed, push_loaded, handle_small_group_message,
  push_mapped,
}

module _ (r : Redis) where
  module _ (dial : Bytes → Bool) (prefers_done : ℕ → Bool) where
    module _ (rows : ℕ → List ℕ) where
      abbrev table : ℕ → Option (List ℕ)
      table i = some (rows i)

      -- The call of the logic server: it fails only where an outcome is used up.
      record Refreshes (t : Task r) (p : Task r × Option (List ℕ)) : Type 0 where
        bounded : to_come r p.0 ≤ to_come r t
        marked : p.0.marked ≡ t.marked
        failed : p.1 ≡ none → to_come r p.0 < to_come r t

      refresh_delivered :
          (g : ℕ) (t : Task r)
          → (g == 0) ≡ false
          → Refreshes t (refresh_reached r dial prefers_done table delivered g t)
      unfolding refresh_reached to_come
      refresh_delivered g t z =
          let run = refresh_group_members_cache-Drains r rows g t.world z in
          elim (Result-cases (refresh_group_members_cache r table g t.world).1) [
            | inl (a, e) ↦ record {
              bounded = ground (arith, e, run.bounded);
              marked = refl;
              failed = λ h. absurd (ground (arith, e, h));
            }
            | inr (x, e) ↦ record {
              bounded = ground (arith, e, run.bounded);
              marked = refl;
              failed = λ h. ground (arith, e, run.failed x e);
            }
          ]

      refresh_bounded :
          (o : Outcome) (g : ℕ) (t : Task r)
          → (g == 0) ≡ false
          → (to_come r (refresh_reached r dial prefers_done table o g t).0 ≤ to_come r t)
            × ((refresh_reached r dial prefers_done table o g t).0.marked ≡ t.marked)
      unfolding refresh_reached to_come
      refresh_bounded delivered g t z =
          let there = refresh_delivered g t z in (there.bounded, there.marked)
      refresh_bounded refused g t z = (omega arith, refl)
      refresh_bounded reply_lost g t z =
          let run = refresh_group_members_cache-Drains r rows g t.world z in
          (omega (arith, run.bounded), refl)

      refresh_call_end :
          (g : ℕ) (t : Task r)
          → t.rpc ≡ []
          → refresh_call r dial prefers_done table g t
            ≡ refresh_reached r dial prefers_done table delivered g t
      unfolding refresh_call
      refresh_call_end g t w = ground (arith, w)

      refresh_call_next :
          (g : ℕ) (t : Task r) (o : Outcome) (rest : List Outcome)
          → t.rpc ≡ o ∷ rest
          → refresh_call r dial prefers_done table g t
            ≡ refresh_reached r dial prefers_done table o g (record t { rpc = rest })
      unfolding refresh_call
      refresh_call_next g t o rest w = ground (arith, w)

      refresh_call-Refreshes :
          (g : ℕ) (t : Task r)
          → (g == 0) ≡ false
          → Refreshes t (refresh_call r dial prefers_done table g t)
      unfolding to_come
      refresh_call-Refreshes g t z = elim (List-cases t.rpc) [
        | inl w ↦ rw (refresh_call_end g t w) (refresh_delivered g t z)
        | inr ((o, rest), w) ↦
            let there = refresh_bounded o g (record t { rpc = rest }) z in
            rw (refresh_call_next g t o rest w) (record {
              bounded = ground (arith, w, there.0);
              marked = there.1;
              failed = λ h. ground (arith, w, there.0);
            })
      ]

      push_mapped-Uses :
          (gm : GroupMessage) (payload : Bytes) (members : List ℕ) (t : Task r)
          → Uses r t (push_mapped r dial prefers_done gm payload members t)
      unfolding push_mapped to_come
      push_mapped-Uses gm payload members t =
          let read = get_online_routing_map-Drains r members t.world in
          let w = get_online_routing_map r members t.world in
          elim (Result-cases w.1) [
            | inl (m, e) ↦
                rw (push_mapped, e)
                  (later-Uses r (omega (arith, read.bounded)) refl
                    (push_each-Uses r dial prefers_done gm payload m (record t { world = w.0 })))
            | inr (x, e) ↦
                rw (push_mapped, e)
                  (fails-Uses r x t (record t { world = w.0 }) (omega (arith, read.failed x e))
                    refl)
          ]

      push_refreshed-Uses :
          (gm : GroupMessage) (payload : Bytes) (t : Task r)
          → (gm.group_id == 0) ≡ false
          → Uses r t (push_refreshed r dial prefers_done table gm payload t)
      unfolding push_refreshed
      push_refreshed-Uses gm payload t z =
          let call = refresh_call-Refreshes gm.group_id t z in
          let p = refresh_call r dial prefers_done table gm.group_id t in
          elim (Option-cases p.1) [
            | inl e ↦
                rw (push_refreshed, e) (fails-Uses r rpc_failed t p.0 (call.failed e) call.marked)
            | inr (members, e) ↦ elim (Bool-cases (is_empty members)) [
              | inl f ↦
                  rw (push_refreshed, e, f) (succeeds-Uses r tt t p.0 call.bounded call.marked)
              | inr f ↦
                  rw (push_refreshed, e, f)
                    (later-Uses r call.bounded call.marked
                      (push_mapped-Uses gm payload members p.0))
            ]
          ]

      push_loaded-Uses :
          (gm : GroupMessage) (payload : Bytes) (got : Result ConsumeError (Dict (List ℕ)))
          (t t' : Task r)
          → (gm.group_id == 0) ≡ false
          → to_come r t' ≤ to_come r t
          → t'.marked ≡ t.marked
          → ((x : ConsumeError) → got ≡ err x → is_answer x ≡ false → to_come r t' < to_come r t)
          → Uses r t (push_loaded r dial prefers_done table gm payload got t')
      unfolding push_loaded
      push_loaded-Uses gm payload (ok m) t t' z b k f =
          later-Uses r b k (push_each-Uses r dial prefers_done gm payload m t')
      push_loaded-Uses gm payload (err no_members) t t' z b k f = succeeds-Uses r tt t t' b k
      push_loaded-Uses gm payload (err no_online_users) t t' z b k f = succeeds-Uses r tt t t' b k
      push_loaded-Uses gm payload (err cache_missed) t t' z b k f =
          later-Uses r b k (push_refreshed-Uses gm payload t' z)
      push_loaded-Uses gm payload (err redis_failed) t t' z b k f =
          fails-Uses r redis_failed t t' (f redis_failed refl refl) k
      push_loaded-Uses gm payload (err rpc_failed) t t' z b k f =
          fails-Uses r rpc_failed t t' (f rpc_failed refl refl) k
      push_loaded-Uses gm payload (err unmarshal_failed) t t' z b k f =
          fails-Uses r unmarshal_failed t t' (f unmarshal_failed refl refl) k
      push_loaded-Uses gm payload (err expired) t t' z b k f =
          fails-Uses r expired t t' (f expired refl refl) k
      push_loaded-Uses gm payload (err db_nil) t t' z b k f =
          fails-Uses r db_nil t t' (f db_nil refl refl) k
      push_loaded-Uses gm payload (err db_failed) t t' z b k f =
          fails-Uses r db_failed t t' (f db_failed refl refl) k

      -- An attempt at a message of a group other than 0 fails only where an outcome is used up.
      pub handle_small_group_message-Uses :
          (gm : GroupMessage) (payload : Bytes) (t : Task r)
          → (gm.group_id == 0) ≡ false
          → Uses r t (handle_small_group_message r dial prefers_done table gm payload t)
      unfolding handle_small_group_message to_come
      handle_small_group_message-Uses gm payload t z =
          let load = load_group_online_member_ids-LoadDrains r gm.group_id t.world in
          let w = load_group_online_member_ids r gm.group_id t.world in
          push_loaded-Uses gm payload w.1 t (record t { world = w.0 }) z
            (omega (arith, load.bounded)) refl (λ x e a. omega (arith, load.failed x e a))

-- ===== src/Logic/GroupCache/Drains.antt =====
-- A refresh of the cache fails only where the network does, if the database answers.
use likegochat.Prelude.{ℕ, ◌≡◌, ◌==◌, List, false, some, arith, Bool-cases, inl, inr, is_empty}
use likegochat.Redis.{Redis, World, Result-cases}
use likegochat.Redis.Trips.{Drains, drains}
use likegochat.Logic.Error.{redis_error}
use likegochat.Logic.GroupCache.{run_pipeline, refresh_group_members_cache, fill_cache, rebuild}

module _ (r : Redis) (rows : ℕ → List ℕ) where
  run_pipeline-Drains :
      (f : r.State → r.State) (w : World r) → Drains redis_error (run_pipeline r f) w
  unfolding run_pipeline
  run_pipeline-Drains f w = drains redis_error (λ s. (f s, tt)) w

  pub refresh_group_members_cache-Drains :
      (g : ℕ) (w : World r)
      → (g == 0) ≡ false
      → Drains redis_error (refresh_group_members_cache r (λ i. some (rows i)) g) w
  unfolding refresh_group_members_cache fill_cache
  refresh_group_members_cache-Drains g w z =
      let run = run_pipeline-Drains (rebuild r g (rows g)) w in
      elim (Bool-cases (is_empty (rows g))) [
        | inl e ↦ record {
          bounded = ground (arith, z, e, run.bounded);
          failed = λ x h. absurd (ground (arith, z, e, h));
        }
        | inr e ↦ elim (Result-cases (run_pipeline r (rebuild r g (rows g)) w).1) [
          | inl (a, f) ↦ record {
            bounded = ground (arith, z, e, f, run.bounded);
            failed = λ x h. absurd (ground (arith, z, e, f, h));
          }
          | inr (y, f) ↦ record {
            bounded = ground (arith, z, e, f, run.bounded);
            failed = λ x h. ground (arith, z, e, f, run.failed y f);
          }
        ]
      ]

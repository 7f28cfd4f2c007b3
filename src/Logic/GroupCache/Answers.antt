-- ===== src/Logic/GroupCache/Answers.antt =====
-- What `IsGroupMember` answers, over a network that may fail.
use mathlib.Core.Path.{subst}
use likegochat.Prelude.Decimal.{format_int}
use likegochat.Prelude.Bytes.{Bytes, bytes_eq_refl}
use likegochat.Prelude.{
  ℕ, ◌≡◌, List, Bool, true, false, some, none, ◌<◌, mem, ◌^◌, is_empty, [], arith, Bool-cases, inl,
  inr, ◌∙◌, not, ◌||◌, ◌⊎◌, ap, refl, ◌==◌,
}
use likegochat.Redis.{Redis, World, mem_bytes, Result-cases}
use likegochat.Redis.Trips.{Reads, Writes, asks, orders}
use likegochat.Logic.Error.{redis_error}
use likegochat.Logic.GroupCache.{
  group_key, sismember, exists_key, rebuild, fill_cache, load_members, is_group_member, Bytes, mem,
  is_empty, mem_bytes, format_int, ◌∷◌, not, run_pipeline, is_some, ok, refresh_group_members_cache,
}
use likegochat.Logic.GroupCache.Coherence.{AreIds, IsCoherent, rebuild-IsCoherent}

module _ (r : Redis) (rows : ℕ → List ℕ) where
  sismember-Reads :
      (k v : Bytes) (w : World r)
      → Reads redis_error (mem_bytes v (r.members k w.db)) (sismember r k v) w
  unfolding sismember
  sismember-Reads k v w = asks redis_error (λ s. mem_bytes v (r.members k s)) w.db w.net

  exists_key-Reads :
      (k : Bytes) (w : World r)
      → r.get k w.db ≡ none
      → Reads redis_error (not (is_empty (r.members k w.db))) (exists_key r k) w
  unfolding exists_key
  exists_key-Reads k w h =
      let answer : (not (is_empty (r.members k w.db)) || is_some (r.get k w.db))
          ≡ not (is_empty (r.members k w.db)) =
        ground (arith, h) in
      subst (λ b. Reads redis_error b (exists_key r k) w) answer
        (asks redis_error (λ s. not (is_empty (r.members k s)) || is_some (r.get k s)) w.db w.net)

  -- What may become of the data.
  abbrev Kept : ℕ → r.State → World r → Type 0
  Kept g s w = (w.db ≡ s) ⊎ (w.db ≡ rebuild r g (rows g) s)

  fill_cache-Kept : (g : ℕ) (w : World r) → Kept g w.db (fill_cache r g (rows g) w)
  unfolding fill_cache run_pipeline
  fill_cache-Kept g w =
      let script : Writes redis_error (rebuild r g (rows g)) (run_pipeline r (rebuild r g (rows g)))
          w =
        orders redis_error (rebuild r g (rows g)) w.db w.net in
      elim script.answer [
        | inl i ↦ inr (ap (λ p. p.0.db) i.0 ∙ i.1)
        | inr i ↦ elim i.1 [
          | inl j ↦ inr (ap (λ p. p.0.db) i.0 ∙ j)
          | inr j ↦ inl (ap (λ p. p.0.db) i.0 ∙ j)
        ]
      ]

  Kept-IsCoherent :
      (g : ℕ) (s : r.State) (w : World r)
      → g < 2 ^ 64
      → AreIds r rows
      → IsCoherent r rows s
      → Kept g s w
      → IsCoherent r rows w.db
  Kept-IsCoherent g s w hg ids c (inl e) = rw e c
  Kept-IsCoherent g s w hg ids c (inr e) = rw e (rebuild-IsCoherent r rows g s hg ids c)

  uncached :
      (u : ℕ) (l : List Bytes)
      → mem_bytes (format_int u) l ≡ false
      → is_empty l ≡ false
      → (v : Bytes) × (mem_bytes v l ≡ true)
  uncached u [] h e = absurd (ground (arith, e))
  uncached u (v ∷ l) h e = (v, ground (arith, bytes_eq_refl v))

  is_group_member_run :
      (g u : ℕ) (w : World r)
      → g < 2 ^ 64
      → u < 2 ^ 63
      → IsCoherent r rows w.db
      → ((b : Bool) → (is_group_member r (λ i. some (rows i)) g u w).1 ≡ ok b → b ≡ mem u (rows g))
        × Kept g w.db (is_group_member r (λ i. some (rows i)) g u w).0
  unfolding is_group_member load_members
  is_group_member_run g u w hg hu c =
      let first = sismember-Reads (group_key g) (format_int u) w in
      elim first.answer [
        | inr e ↦ (λ b h. absurd (ground (arith, e, h)), inl (ground (arith, e, first.same)))
        | inl e ↦ elim (Bool-cases (mem_bytes (format_int u) (r.members (group_key g) w.db))) [
          | inl f ↦ (
            λ b h. ground (arith, e, f, h, c.cached g u (format_int u) hg hu f),
            inl (ground (arith, e, f, first.same)),
          )
          | inr f ↦
              let second =
                exists_key-Reads (group_key g) first.after (rw first.same (c.set_only g)) in
              elim second.answer [
                | inr i ↦ (
                  λ b h. absurd (ground (arith, e, f, i, h)),
                  inl (ground (arith, e, f, i, first.same, second.same)),
                )
                | inl i ↦ elim (Bool-cases (is_empty (r.members (group_key g) w.db))) [
                  | inl j ↦ (
                    λ b h. ground (arith, e, f, i, j, first.same, h),
                    elim (fill_cache-Kept g second.after) [
                      | inl k ↦ inl (ground (arith, e, f, i, j, first.same, second.same, k))
                      | inr k ↦ inr (ground (arith, e, f, i, j, first.same, second.same, k))
                    ],
                  )
                  | inr j ↦
                      let listed = uncached u (r.members (group_key g) w.db) f j in
                      (
                        λ b h. ground (
                          arith,
                          e,
                          f,
                          i,
                          j,
                          first.same,
                          h,
                          listed.1,
                          c.cached g u listed.0 hg hu,
                        ),
                        inl (ground (arith, e, f, i, j, first.same, second.same)),
                      )
                ]
              ]
        ]
      ]

  -- The answer on whether a user is in a group is that of the table, whatever the network does.
  pub is_group_member_lem :
      (g u : ℕ) (w : World r) (b : Bool)
      → g < 2 ^ 64
      → u < 2 ^ 63
      → IsCoherent r rows w.db
      → (is_group_member r (λ i. some (rows i)) g u w).1 ≡ ok b
      → b ≡ mem u (rows g)
  is_group_member_lem g u w b hg hu c h = (is_group_member_run g u w hg hu c).0 b h

  -- The check keeps the cache as the table has it, whatever the network does.
  pub is_group_member-IsCoherent :
      (g u : ℕ) (w : World r)
      → g < 2 ^ 64
      → u < 2 ^ 63
      → AreIds r rows
      → IsCoherent r rows w.db
      → IsCoherent r rows (is_group_member r (λ i. some (rows i)) g u w).0.db
  is_group_member-IsCoherent g u w hg hu ids c =
      Kept-IsCoherent g w.db (is_group_member r (λ i. some (rows i)) g u w).0 hg ids c
        (is_group_member_run g u w hg hu c).1

  pipeline-Kept : (g : ℕ) (w : World r) → Kept g w.db (run_pipeline r (rebuild r g (rows g)) w).0
  pipeline-Kept g w = unfold fill_cache in fill_cache-Kept g w

  no_rows : (ms : List ℕ) → is_empty ms ≡ true → ms ≡ []
  no_rows [] h = refl
  no_rows (m ∷ ms) h = cc

  refresh_run :
      (g : ℕ) (w : World r)
      → ((members : List ℕ)
          → (refresh_group_members_cache r (λ i. some (rows i)) g w).1 ≡ ok members
          → members ≡ rows g)
        × Kept g w.db (refresh_group_members_cache r (λ i. some (rows i)) g w).0
  unfolding refresh_group_members_cache
  refresh_run g w = elim (Bool-cases (g == 0)) [
    | inl z ↦ (λ members h. absurd (ground (arith, h, z)), inl (ground (arith, z)))
    | inr z ↦ elim (Bool-cases (is_empty (rows g))) [
      | inl e ↦ (
        λ members h. ground (arith, h, z, e, no_rows (rows g)),
        elim (fill_cache-Kept g w) [
          | inl k ↦ inl (ground (arith, z, e, k))
          | inr k ↦ inr (ground (arith, z, e, k))
        ],
      )
      | inr e ↦
          let answer = Result-cases (run_pipeline r (rebuild r g (rows g)) w).1 in
          (
            λ members h. ground (arith, h, z, e, answer),
            elim (pipeline-Kept g w) [
              | inl k ↦ inl (ground (arith, z, e, k, answer))
              | inr k ↦ inr (ground (arith, z, e, k, answer))
            ],
          )
    ]
  ]

  -- For a group id below 2^64, a table that holds ids and a coherent cache: the members that a refresh
  -- of the cache returns are the rows of the table, and whatever the network does, also where the refresh
  -- fails, the cache stays coherent.
  pub refresh_group_members_cache_lem :
      (g : ℕ) (w : World r)
      → g < 2 ^ 64
      → AreIds r rows
      → IsCoherent r rows w.db
      → ((members : List ℕ)
          → (refresh_group_members_cache r (λ i. some (rows i)) g w).1 ≡ ok members
          → members ≡ rows g)
        × IsCoherent r rows (refresh_group_members_cache r (λ i. some (rows i)) g w).0.db
  refresh_group_members_cache_lem g w hg ids c =
      let run = refresh_run g w in
      (
        run.0,
        Kept-IsCoherent g w.db (refresh_group_members_cache r (λ i. some (rows i)) g w).0 hg ids c
            run.1,
      )

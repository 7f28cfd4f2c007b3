-- ===== src/Logic/GroupServer/Cache.antt =====
-- A member that is added, and the cache of the group's members.
use likegochat.Prelude.{
  ℕ, ◌≡◌, ◌<◌, ◌^◌, ◌==◌, ◌∙◌, ap, refl, sym, Bool, true, false, ◌&&◌, not, List, [], arith,
  Bool-cases, inl, inr, mem,
}
use likegochat.Redis.{Redis, World, Result-cases, ok}
use likegochat.Logic.Error.{query_group_failed, insert_member_failed, member_count_failed}
use likegochat.Logic.GroupCache.{group_key}
use likegochat.Logic.GroupCache.Coherence.{IsCoherent, group_key-eq}
use likegochat.Logic.GroupServer.{
  GroupTables, GroupServer, give, transaction, add_member, query_group, create_member, count_member,
  insert_member, increase_count, delete_cache, double_delete, add_group,
}
use likegochat.Logic.GroupServer.Counts.{
  Takes, statement-Takes, and_then-Takes, give-Takes, transaction-Ends,
}

module _ (r : Redis) (mysql : GroupTables) where
  -- With the members of the group as `s₀` has them, what `AddGroup` may leave: the user has a row, and
  -- the members of the other groups, and of this one where nothing is inserted, are as before.
  abbrev Added : mysql.State → ℕ → ℕ → Bool → mysql.State → Type 0
  Added before g u inserted s =
      (mysql.has_row g u s ≡ true)
      × ((j : ℕ) → (g == j) && inserted ≡ false → mysql.rows j s ≡ mysql.rows j before)

  abbrev Is : mysql.State → mysql.State → Type 0
  Is before s = s ≡ before

  count_member-Added :
      (before : mysql.State) (g u : ℕ) (affected : Bool)
      → Takes r mysql
          (Added before g u affected)
          (Added before g u)
          (count_member r mysql g affected)
  unfolding count_member increase_count
  count_member-Added before g u false =
      give-Takes r mysql false (Added before g u false) (Added before g u) (λ s p. p)
  count_member-Added before g u true =
      and_then-Takes r mysql (increase_count r mysql g) (λ done. give r mysql (ok true))
        (Added before g u true) (λ done. Added before g u true) (Added before g u)
        (statement-Takes r mysql member_count_failed (λ s. (mysql.increase g s, tt))
          (Added before g u true) (λ done. Added before g u true)
          (λ s p. (mysql.counted g u g s ∙ p.0, λ j e. (mysql.increased g j s).0 ∙ p.1 j e)))
        (λ done. give-Takes r mysql true (Added before g u true) (Added before g u) (λ s p. p))

  insert_member-Added :
      (before : mysql.State) (g u : ℕ) (found : Bool)
      → Takes r mysql (Is before) (Added before g u) (insert_member r mysql g u found)
  unfolding insert_member create_member
  insert_member-Added before g u false = λ s sql b p k. absurd (ground (arith, k))
  insert_member-Added before g u true =
      and_then-Takes r mysql (create_member r mysql insert_member_failed g u)
        (count_member r mysql g) (Is before) (Added before g u) (Added before g u)
        (statement-Takes r mysql insert_member_failed
          (λ s. (mysql.insert_member g u s, not (mysql.has_row g u s))) (Is before)
          (Added before g u)
          (λ s p. (
            mysql.listed g u s,
            λ j e. ground (arith, e, (mysql.inserted g u j s).0, ap (mysql.rows j) p),
          )))
        (count_member-Added before g u)

  add_member-Added :
      (before : mysql.State) (g u : ℕ)
      → Takes r mysql (Is before) (Added before g u) (add_member r mysql g u)
  unfolding add_member query_group
  add_member-Added before g u =
      and_then-Takes r mysql (query_group r mysql g) (insert_member r mysql g u) (Is before)
        (λ found. Is before) (Added before g u)
        (statement-Takes r mysql query_group_failed (λ s. (s, mysql.active g s)) (Is before)
          (λ found. Is before) (λ s p. p))
        (insert_member-Added before g u)

  abbrev table : mysql.State → ℕ → List ℕ
  table s g = mysql.rows g s

  -- The deletion of a group's key makes the cache coherent with any table that differs in that group
  -- only.
  del-IsCoherent :
      (g : ℕ) (before after : mysql.State) (s : r.State)
      → g < 2 ^ 64
      → ((j : ℕ) → (g == j) ≡ false → mysql.rows j after ≡ mysql.rows j before)
      → IsCoherent r (table before) s
      → IsCoherent r (table after) (r.del (group_key g) s)
  del-IsCoherent g before after s hg same c = record {
    cached = λ j u v hj hu h.
        let key = group_key-eq r (table before) g j hg hj in
        let left = r.members-del (group_key g) (group_key j) s in
        elim (Bool-cases (g == j)) [
          | inl e ↦ absurd (ground (arith, e, key, left, h))
          | inr e ↦ ground (arith, e, key, left, h, same j e, c.cached j u v hj hu)
        ];
    set_only = λ j. ground (arith, r.get-del (group_key g) (group_key j) s, c.set_only j);
  }

  same-IsCoherent :
      (before after : mysql.State) (s : r.State)
      → ((j : ℕ) → mysql.rows j after ≡ mysql.rows j before)
      → IsCoherent r (table before) s
      → IsCoherent r (table after) s
  same-IsCoherent before after s same c = record {
    cached = λ j u v hj hu h. c.cached j u v hj hu h ∙ ap (mem u) (sym (same j));
    set_only = c.set_only;
  }

  delete_cache_calm :
      (g : ℕ) (w : World r) → w.net ≡ [] → (delete_cache r mysql g w).db ≡ r.del (group_key g) w.db
  unfolding delete_cache
  delete_cache_calm g w e = ground (arith, e)

  -- From a coherent cache, an `AddGroup` of a group id below 2^64 that succeeds, with no fault of Redis
  -- to come, has put the user into the table, and leaves the cache of the members coherent with the table.
  pub add_group-IsCoherent :
      (group_id user_id : ℕ) (g : GroupServer r mysql) (b : Bool)
      → group_id < 2 ^ 64
      → g.world.net ≡ []
      → IsCoherent r (λ j. mysql.rows j g.db) g.world.db
      → (add_group r mysql group_id user_id g).1 ≡ ok b
      → (mysql.has_row group_id user_id (add_group r mysql group_id user_id g).0.db ≡ true)
        × IsCoherent r
            (λ j. mysql.rows j (add_group r mysql group_id user_id g).0.db)
            (add_group r mysql group_id user_id g).0.world.db
  unfolding add_group double_delete
  add_group-IsCoherent i u g b hi calm c h =
      let tx = transaction r mysql (add_member r mysql i u) g in
      let ends =
        transaction-Ends r mysql (add_member r mysql i u) (Is g.db) (Added g.db i u) g
          (add_member-Added g.db i u) refl in
      elim (Result-cases tx.1) [
        | inr (x, e) ↦ absurd (ground (arith, h, e))
        | inl (true, e) ↦
            let added = ends.reported true e in
            let goes : (add_group r mysql i u g).0 ≡ double_delete r mysql i tx.0 =
              ground (arith, e) in
            let deleted : (delete_cache r mysql i tx.0.world).db ≡ r.del (group_key i) g.world.db =
              delete_cache_calm i tx.0.world (ap (λ w. w.net) ends.world ∙ calm)
              ∙ ap (λ w. r.del (group_key i) w.db) ends.world in
            rw (goes, deleted)
              (
                added.0,
                del-IsCoherent i g.db tx.0.db g.world.db hi (λ j ne. added.1 j (ground (arith, ne)))
                    c,
              )
        | inl (false, e) ↦
            let added = ends.reported false e in
            let goes : (add_group r mysql i u g).0 ≡ tx.0 = ground (arith, e) in
            rw (goes, ends.world)
              (added.0, same-IsCoherent g.db tx.0.db g.world.db (λ j. added.1 j (ground arith)) c)
      ]

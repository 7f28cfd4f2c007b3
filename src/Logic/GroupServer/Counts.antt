-- ===== src/Logic/GroupServer/Counts.antt =====
-- `member_count` is the number of the members, whatever fails.
use mathlib.Core.Path.{subst}
use likegochat.Prelude.{
  ℕ, ◌+◌, ◌≡◌, refl, sym, ◌==◌, ◌⊎◌, Bool, true, false, ◌&&◌, ◌||◌, not, List, [], ◌∷◌, arith,
  Bool-cases, inl, inr, length, length-append, is_empty, ltb, ◌∙◌, ap, sym, if◌then◌else◌, suc,
}
use likegochat.Prelude.Bytes.{Bytes}
use likegochat.Redis.{Redis, Outcome, delivered, refused, reply_lost, Result, Result-cases, ok, err}
use likegochat.Connect.RoomManager.{is_nonpositive}
use likegochat.Logic.Error.{
  Error, db_error, query_group_failed, insert_member_failed, member_count_failed,
}
use likegochat.Logic.GroupServer.{
  GroupTables, GroupServer, Statement, statement, and_then, give, commit, transaction, add_member,
  double_delete, add_group, create_rows, create_group, create_group_row, count_member,
  insert_member, create_member, query_group, increase_count, create_owner,
}

module _ (r : Redis) (mysql : GroupTables) where
  -- The counts of the table of groups are the numbers of rows.
  abbrev pub AreCounted : mysql.State → Type 0
  AreCounted s = (j : ℕ) → mysql.member_count j s ≡ length (mysql.rows j s)

  -- What a function of a transaction may assume, and what it leaves where it succeeds.
  abbrev pub Takes :
      {A : Type 0}
      → (mysql.State → Type 0)
      → (A → mysql.State → Type 0)
      → Statement r mysql A
      → Type 0
  Takes {A} P Q m =
      (s : mysql.State) (sql : List Outcome) (a : A) → P s → (m s sql).1 ≡ ok a → Q a (m s sql).0.0

  pub statement-Takes :
      {A : Type 0} (e : Error) (f : mysql.State → mysql.State × A) (P : mysql.State → Type 0)
      (Q : A → mysql.State → Type 0)
      → ((s : mysql.State) → P s → Q (f s).1 (f s).0)
      → Takes P Q (statement r mysql e f)
  unfolding statement
  statement-Takes e f P Q h s [] a p g =
      let same : (f s).1 ≡ a = ground (arith, g) in subst (λ x. Q x (f s).0) same (h s p)
  statement-Takes e f P Q h s (delivered ∷ sql) a p g =
      let same : (f s).1 ≡ a = ground (arith, g) in subst (λ x. Q x (f s).0) same (h s p)
  statement-Takes e f P Q h s (refused ∷ sql) a p g = absurd (ground (arith, g))
  statement-Takes e f P Q h s (reply_lost ∷ sql) a p g = absurd (ground (arith, g))

  pub and_then-Takes :
      {A B : Type 0} (m : Statement r mysql A) (f : A → Statement r mysql B)
      (P : mysql.State → Type 0) (Q : A → mysql.State → Type 0) (R : B → mysql.State → Type 0)
      → Takes P Q m
      → ((a : A) → Takes (Q a) R (f a))
      → Takes P R (and_then r mysql m f)
  unfolding and_then
  and_then-Takes m f P Q R hm hf s sql b p g = elim (Result-cases (m s sql).1) [
    | inr (x, e) ↦ absurd (ground (arith, g, e))
    | inl (a, e) ↦
        let next : and_then r mysql m f s sql ≡ f a (m s sql).0.0 (m s sql).0.1 =
          ground (arith, e) in
        rw next (hf a (m s sql).0.0 (m s sql).0.1 b (hm s sql a p e) (sym (ap (λ x. x.1) next) ∙ g))
  ]

  pub give-Takes :
      {A : Type 0} (a : A) (P : mysql.State → Type 0) (Q : A → mysql.State → Type 0)
      → ((s : mysql.State) → P s → Q a s)
      → Takes P Q (give r mysql (ok a))
  give-Takes a P Q h s sql b p g =
      let same : a ≡ b = ground (arith, g) in subst (λ x. Q x s) same (h s p)

  -- A transaction leaves the data or has the effect of its function, and it has that where it is
  -- reported as a success.
  pub record Ends {A : Type 0} (P : mysql.State → Type 0) (Q : A → mysql.State → Type 0)
      (g : GroupServer r mysql) (p : GroupServer r mysql × Result Error A) : Type 0 where
    pub result : (p.0.db ≡ g.db) ⊎ ((a : A) × Q a p.0.db)
    pub reported : (a : A) → p.1 ≡ ok a → Q a p.0.db
    pub world : p.0.world ≡ g.world

  commit-Ends :
      {A : Type 0} (P : mysql.State → Type 0) (Q : A → mysql.State → Type 0) (a : A)
      (s : mysql.State) (sql : List Outcome) (g : GroupServer r mysql)
      → Q a s
      → Ends P Q g (commit r mysql a s sql g)
  unfolding commit
  commit-Ends P Q a s [] g q = record {
    result = inr (a, q);
    reported = λ b e. let same : a ≡ b = ground (arith, e) in subst (λ x. Q x s) same q;
    world = refl;
  }
  commit-Ends P Q a s (delivered ∷ sql) g q = record {
    result = inr (a, q);
    reported = λ b e. let same : a ≡ b = ground (arith, e) in subst (λ x. Q x s) same q;
    world = refl;
  }
  commit-Ends P Q a s (refused ∷ sql) g q = record {
    result = inl refl;
    reported = λ b e. absurd (ground (arith, e));
    world = refl;
  }
  commit-Ends P Q a s (reply_lost ∷ sql) g q = record {
    result = inr (a, q);
    reported = λ b e. absurd (ground (arith, e));
    world = refl;
  }

  pub transaction-Ends :
      {A : Type 0} (m : Statement r mysql A) (P : mysql.State → Type 0)
      (Q : A → mysql.State → Type 0) (g : GroupServer r mysql)
      → Takes P Q m
      → P g.db
      → Ends P Q g (transaction r mysql m g)
  unfolding transaction
  transaction-Ends m P Q g h p = elim (Result-cases (m g.db g.sql).1) [
    | inr (x, e) ↦
        rw (transaction, e)
          (record { result = inl refl; reported = λ b k. absurd (ground (arith, k)); world = refl })
    | inl (a, e) ↦
        rw (transaction, e)
          (commit-Ends P Q a (m g.db g.sql).0.0 (m g.db g.sql).0.1 g (h g.db g.sql a p e))
  ]

  -- After the insertion of `AddGroup` the count of the group is one behind, if there is a new row.
  abbrev Behind : ℕ → Bool → mysql.State → Type 0
  Behind g affected s =
      (j : ℕ)
      → (if (g == j) && affected then mysql.member_count j s + 1 else mysql.member_count j s)
        ≡ length (mysql.rows j s)

  query_group-Takes : (g : ℕ) → Takes AreCounted (λ found. AreCounted) (query_group r mysql g)
  unfolding query_group
  query_group-Takes g =
      statement-Takes query_group_failed (λ s. (s, mysql.active g s)) AreCounted
        (λ found. AreCounted) (λ s p. p)

  create_member-Takes :
      (e : Error) (g u : ℕ) → Takes AreCounted (Behind g) (create_member r mysql e g u)
  unfolding create_member
  create_member-Takes e g u =
      statement-Takes e (λ s. (mysql.insert_member g u s, not (mysql.has_row g u s))) AreCounted
        (Behind g)
        (λ s p j.
          ground (arith, p j, mysql.inserted g u j s, length-append (mysql.rows j s) (u ∷ [])))

  count_member-Takes :
      (g : ℕ) (affected : Bool)
      → Takes (Behind g affected) (λ done. AreCounted) (count_member r mysql g affected)
  unfolding count_member increase_count
  count_member-Takes g false = λ s sql b p k j. ground (arith, p j)
  count_member-Takes g true =
      and_then-Takes (increase_count r mysql g) (λ done. give r mysql (ok true)) (Behind g true)
        (λ done. AreCounted) (λ done. AreCounted)
        (statement-Takes member_count_failed (λ s. (mysql.increase g s, tt)) (Behind g true)
          (λ done. AreCounted) (λ s p j. ground (arith, p j, mysql.increased g j s)))
        (λ done. give-Takes true AreCounted (λ b. AreCounted) (λ s p. p))

  insert_member-Takes :
      (g u : ℕ) (found : Bool)
      → Takes AreCounted (λ done. AreCounted) (insert_member r mysql g u found)
  unfolding insert_member
  insert_member-Takes g u false = λ s sql b p k. p
  insert_member-Takes g u true =
      and_then-Takes (create_member r mysql insert_member_failed g u) (count_member r mysql g)
        AreCounted (Behind g) (λ done. AreCounted) (create_member-Takes insert_member_failed g u)
        (count_member-Takes g)

  add_member-Takes : (g u : ℕ) → Takes AreCounted (λ done. AreCounted) (add_member r mysql g u)
  unfolding add_member
  add_member-Takes g u =
      and_then-Takes (query_group r mysql g) (insert_member r mysql g u) AreCounted
        (λ found. AreCounted) (λ done. AreCounted) (query_group-Takes g) (insert_member-Takes g u)

  -- After the row of a new group its count is one ahead.
  abbrev Ahead : ℕ → mysql.State → Type 0
  Ahead g s =
      ((j : ℕ)
        → mysql.member_count j s
          ≡ (if g == j then suc (length (mysql.rows j s)) else length (mysql.rows j s)))

  create_rows-Takes :
      (name : Bytes) (u : ℕ) → Takes AreCounted (λ done. AreCounted) (create_rows r mysql name u)
  unfolding create_rows create_group_row create_owner create_member
  create_rows-Takes name u =
      and_then-Takes (create_group_row r mysql name u) (create_owner r mysql u) AreCounted Ahead
        (λ done. AreCounted)
        (statement-Takes db_error (λ s. (mysql.create_group name u s, mysql.next_id s)) AreCounted
          Ahead (λ s p j. ground (arith, p j, mysql.created name u j s)))
        (λ g.
          and_then-Takes (create_member r mysql db_error g u)
            (λ affected. if affected then give r mysql (ok g) else give r mysql (err db_error))
            (Ahead g) (λ affected s. affected ≡ true → AreCounted s) (λ done. AreCounted)
            (statement-Takes db_error (λ s. (mysql.insert_member g u s, not (mysql.has_row g u s)))
              (Ahead g) (λ affected s. affected ≡ true → AreCounted s)
              (λ s p a j.
                ground
                  (arith, a, p j, mysql.inserted g u j s, length-append (mysql.rows j s) (u ∷ []))))
            (elim [
              | true ↦ λ s sql b p k. p refl
              | false ↦ λ s sql b p k. absurd (ground (arith, k))
            ]))

  counted_after :
      {A : Type 0} (m : Statement r mysql A) (g : GroupServer r mysql)
      → Takes AreCounted (λ done. AreCounted) m
      → AreCounted g.db
      → AreCounted (transaction r mysql m g).0.db
  counted_after m g h p =
      let ends = transaction-Ends m AreCounted (λ done. AreCounted) g h p in
      elim ends.result [ inl e ↦ rw e p | inr (a, q) ↦ q ]

  double_delete_db : (j : ℕ) (g : GroupServer r mysql) → (double_delete r mysql j g).db ≡ g.db
  unfolding double_delete
  double_delete_db j g = refl

  -- Whatever statement or commit fails, `AddGroup` keeps the count of every group at the number of its
  -- members.
  pub add_group-AreCounted :
      (group_id user_id : ℕ) (g : GroupServer r mysql)
      → AreCounted g.db
      → AreCounted (add_group r mysql group_id user_id g).0.db
  unfolding add_group
  add_group-AreCounted i u g p =
      let tx = transaction r mysql (add_member r mysql i u) g in
      let after = counted_after (add_member r mysql i u) g (add_member-Takes i u) p in
      let same : (add_group r mysql i u g).0.db ≡ tx.0.db = elim (Result-cases tx.1) [
        | inr (x, e) ↦ ground (arith, e)
        | inl (b, e) ↦ ground (arith, e, double_delete_db i tx.0, Bool-cases b)
      ] in
      rw same after

  -- Whatever statement or commit fails, `CreateGroup` keeps the count of every group at the number of
  -- its members.
  pub create_group-AreCounted :
      (group_name : Bytes) (user_id : ℕ) (g : GroupServer r mysql)
      → AreCounted g.db
      → AreCounted (create_group r mysql group_name user_id g).0.db
  unfolding create_group
  create_group-AreCounted name u g p =
      let after = counted_after (create_rows r mysql name u) g (create_rows-Takes name u) p in
      elim (Bool-cases (is_empty name || ltb 30 (length name))) [
        | inl e ↦ rw (create_group, e) p
        | inr e ↦ elim (Bool-cases (is_nonpositive u)) [
          | inl f ↦ rw (create_group, e, f) p
          | inr f ↦ rw (create_group, e, f) after
        ]
      ]

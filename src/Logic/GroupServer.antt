-- ===== src/Logic/GroupServer.antt =====
-- `AddGroup` and `CreateGroup` of internal/logic/groupserver.go. The second deletion of the cache, 200 ms
-- after the first, is a step of its own.
pub mod Counts
pub mod Cache
mod Tests
use likegochat.Prelude.{
  ℕ, ◌+◌, ◌≡◌, ◌==◌, Bool, true, false, ◌&&◌, ◌||◌, not, List, [], ◌∷◌, ◌++◌, if◌then◌else◌,
  is_empty, length, ltb,
}
use likegochat.Prelude.Bytes.{Bytes}
use likegochat.Redis.{
  Redis, World, M, Outcome, delivered, refused, reply_lost, round_trip, Result, ok, err,
}
use likegochat.Connect.RoomManager.{is_nonpositive}
use likegochat.Logic.Error.{
  Error, redis_error, db_error, group_not_found, query_group_failed, insert_member_failed,
  member_count_failed, invalid_group_name, invalid_user_id,
}
use likegochat.Logic.GroupCache.{group_key}

-- The tables `groups` and `group_members`: `rows` are the users of a group whose status is 0, `has_row`
-- says whether a user has a row of any status, `active` whether the group is there with status 0.
pub record GroupTables : Type 1 where
  pub State : Type 0
  pub rows : ℕ → State → List ℕ
  pub has_row : ℕ → ℕ → State → Bool
  pub active : ℕ → State → Bool
  pub member_count : ℕ → State → ℕ
  pub insert_member : ℕ → ℕ → State → State
  pub increase : ℕ → State → State
  pub create_group : Bytes → ℕ → State → State
  pub next_id : State → ℕ
  pub inserted :
      (g u j : ℕ) (s : State)
      → (rows j (insert_member g u s)
          ≡ (if (g == j) && not (has_row g u s) then rows j s ++ u ∷ [] else rows j s))
        × (member_count j (insert_member g u s) ≡ member_count j s)
  pub listed : (g u : ℕ) (s : State) → has_row g u (insert_member g u s) ≡ true
  pub increased :
      (g j : ℕ) (s : State)
      → (rows j (increase g s) ≡ rows j s)
        × (member_count j (increase g s)
            ≡ (if g == j then member_count j s + 1 else member_count j s))
  pub counted : (g u j : ℕ) (s : State) → has_row g u (increase j s) ≡ has_row g u s
  -- A group that is created has an id of its own, the count 1 and no rows yet.
  pub created :
      (name : Bytes) (owner j : ℕ) (s : State)
      → (rows j (create_group name owner s) ≡ (if next_id s == j then [] else rows j s))
        × (member_count j (create_group name owner s)
            ≡ (if next_id s == j then 1 else member_count j s))
  pub unlisted :
      (name : Bytes) (owner u : ℕ) (s : State)
      → has_row (next_id s) u (create_group name owner s) ≡ false

module _ (r : Redis) (mysql : GroupTables) where
  -- `sql` has the outcomes of the statements and commits to come, and `pending` the groups whose second
  -- deletion is to come.
  pub record GroupServer : Type 0 where
    pub world : World r
    pub db : mysql.State
    pub sql : List Outcome
    pub pending : List ℕ

  -- What is left of the outcomes, the data, and the result.
  abbrev pub Statement : Type 0 → Type 0
  Statement A = mysql.State → List Outcome → (mysql.State × List Outcome) × Result Error A

  pub statement : {A : Type 0} → Error → (mysql.State → mysql.State × A) → Statement A
  statement e f s [] = (((f s).0, []), ok (f s).1)
  statement e f s (delivered ∷ sql) = (((f s).0, sql), ok (f s).1)
  statement e f s (refused ∷ sql) = ((s, sql), err e)
  statement e f s (reply_lost ∷ sql) = ((s, sql), err e)

  pub and_then : {A B : Type 0} → Statement A → (A → Statement B) → Statement B
  and_then m f s sql =
      let done = m s sql in elim done.1 [ err e ↦ (done.0, err e) | ok a ↦ f a done.0.0 done.0.1 ]

  abbrev pub give : {A : Type 0} → Result Error A → Statement A
  give a s sql = ((s, sql), a)

  -- The commit, which may fail before or after it is carried out.
  pub commit :
      {A : Type 0} → A → mysql.State → List Outcome → GroupServer → GroupServer × Result Error A
  commit a s [] g = (record g { db = s; sql = [] }, ok a)
  commit a s (delivered ∷ sql) g = (record g { db = s; sql = sql }, ok a)
  commit a s (refused ∷ sql) g = (record g { sql = sql }, err db_error)
  commit a s (reply_lost ∷ sql) g = (record g { db = s; sql = sql }, err db_error)

  -- `Transaction` of gorm: an error of its function rolls back.
  pub transaction : {A : Type 0} → Statement A → GroupServer → GroupServer × Result Error A
  unfolding commit
  transaction m g =
      let done = m g.db g.sql in
      elim done.1 [
        | err e ↦ (record g { sql = done.0.1 }, err e)
        | ok a ↦ commit a done.0.0 done.0.1 g
      ]

  pub query_group : ℕ → Statement Bool
  unfolding statement
  query_group group_id = statement query_group_failed (λ s. (s, mysql.active group_id s))

  pub create_member : Error → ℕ → ℕ → Statement Bool
  unfolding statement
  create_member e group_id user_id =
      statement e
        (λ s. (mysql.insert_member group_id user_id s, not (mysql.has_row group_id user_id s)))

  pub increase_count : ℕ → Statement (Unit {0})
  unfolding statement
  increase_count group_id = statement member_count_failed (λ s. (mysql.increase group_id s, tt))

  -- The function of the transaction of `AddGroup`, from its last statement back; it returns `inserted`.
  pub count_member : ℕ → Bool → Statement Bool
  unfolding and_then increase_count
  count_member group_id affected =
      if not affected
      then give (ok false)
      else and_then (increase_count group_id) (λ done. give (ok true))

  pub insert_member : ℕ → ℕ → Bool → Statement Bool
  unfolding and_then create_member count_member
  insert_member group_id user_id found =
      if not found
      then give (err group_not_found)
      else and_then (create_member insert_member_failed group_id user_id) (count_member group_id)

  pub add_member : ℕ → ℕ → Statement Bool
  unfolding and_then query_group insert_member
  add_member group_id user_id = and_then (query_group group_id) (insert_member group_id user_id)

  pub delete_cache : ℕ → World r → World r
  delete_cache group_id w = elim w.net [
    | [] ↦ record w { db = r.del (group_key group_id) w.db }
    | o ∷ net ↦ elim o [
      | refused ↦ record w { net = net }
      | delivered ↦ record { db = r.del (group_key group_id) w.db; net = net }
      | reply_lost ↦ record { db = r.del (group_key group_id) w.db; net = net }
    ]
  ]

  -- The first deletion, and the start of the timer of the second.
  pub double_delete : ℕ → GroupServer → GroupServer
  unfolding delete_cache
  double_delete group_id g = record g {
    world = delete_cache group_id g.world;
    pending = g.pending ++ group_id ∷ [];
  }

  -- A timer that ends.
  pub second_delete : GroupServer → GroupServer
  unfolding delete_cache
  second_delete g = elim g.pending [
    | [] ↦ g
    | group_id ∷ rest ↦ record g { world = delete_cache group_id g.world; pending = rest }
  ]

  pub add_group : ℕ → ℕ → GroupServer → GroupServer × Result Error Bool
  unfolding transaction add_member double_delete
  add_group group_id user_id g =
      let done = transaction (add_member group_id user_id) g in
      elim done.1 [
        | err e ↦ (done.0, err e)
        | ok inserted ↦ (if inserted then double_delete group_id done.0 else done.0, ok true)
      ]

  pub create_group_row : Bytes → ℕ → Statement ℕ
  unfolding statement
  create_group_row group_name user_id =
      statement db_error (λ s. (mysql.create_group group_name user_id s, mysql.next_id s))

  -- The owner's row; a row that is there already is an error.
  pub create_owner : ℕ → ℕ → Statement ℕ
  unfolding and_then create_member
  create_owner user_id group_id =
      and_then (create_member db_error group_id user_id)
        (λ affected. if affected then give (ok group_id) else give (err db_error))

  -- The function of the transaction of `CreateGroup`.
  pub create_rows : Bytes → ℕ → Statement ℕ
  unfolding and_then create_group_row create_owner
  create_rows group_name user_id =
      and_then (create_group_row group_name user_id) (create_owner user_id)

  pub create_group : Bytes → ℕ → GroupServer → GroupServer × Result Error ℕ
  unfolding transaction create_rows
  create_group group_name user_id g =
      if is_empty group_name || ltb 30 (length group_name)
      then (g, err invalid_group_name)
      else if is_nonpositive user_id
      then (g, err invalid_user_id)
      else transaction (create_rows group_name user_id) g

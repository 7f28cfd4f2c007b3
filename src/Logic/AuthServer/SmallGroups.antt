-- ===== src/Logic/AuthServer/SmallGroups.antt =====
-- `ListUserSmallGroups` of internal/logic/auth.go, as the query that it sends, on the rows of the two tables
-- of sql/schema.sql.
mod Tests
use likegochat.Prelude.{
  ℕ, ◌≤◌, Bool, List, [], ◌∷◌, ◌++◌, suc, ◌&&◌, ◌==◌, ltb, if◌then◌else◌, length, length-append,
  map, count, arith, ◌≡◌, refl,
}
use likegochat.Prelude.Bytes.{Bytes}
use likegochat.Logic.AuthServer.{UserSmallGroup}

-- A row of `group_members`, with the columns that the query reads and that of the user.
pub record GroupMember : Type 0 where
  pub id : ℕ
  pub group_id : ℕ
  pub user_id : ℕ
  pub user_status : ℕ
  pub joined_at : ℕ

-- A row of `groups`, with the columns that the query reads.
pub record Group : Type 0 where
  pub id : ℕ
  pub group_name : Bytes
  pub group_status : ℕ
  pub member_count : ℕ

-- The conditions of `Where` on a member.
selects : ℕ → GroupMember → Bool
selects user_id m = (m.id == user_id) && (m.user_status == 0)

where_members : ℕ → List GroupMember → List GroupMember
where_members user_id [] = []
where_members user_id (m ∷ ms) =
    let rest = where_members user_id ms in if selects user_id m then m ∷ rest else rest

-- `ORDER BY joined_at DESC`; rows of the same time stay in their order.
insert_by_join : GroupMember → List GroupMember → List GroupMember
insert_by_join m [] = m ∷ []
insert_by_join m (k ∷ ks) =
    let rest = insert_by_join m ks in if ltb m.joined_at k.joined_at then k ∷ rest else m ∷ k ∷ ks

order_members : List GroupMember → List GroupMember
order_members [] = []
order_members (m ∷ ms) = insert_by_join m (order_members ms)

-- What the join selects for a member. A member without a group, which a left join keeps, has no
-- `group_status` and is dropped by `Where`.
join_groups : GroupMember → List Group → List UserSmallGroup
join_groups m [] = []
join_groups m (g ∷ gs) =
    let rest = join_groups m gs in
    if (m.group_id == g.id) && (g.group_status == 0)
    then record { group_id = m.group_id; group_name = g.group_name; member_count = g.member_count }
      ∷ rest
    else rest

select_groups : List GroupMember → List Group → List UserSmallGroup
select_groups [] gs = []
select_groups (m ∷ ms) gs = join_groups m gs ++ select_groups ms gs

pub list_user_small_groups : ℕ → List GroupMember → List Group → List UserSmallGroup
list_user_small_groups user_id ms gs = select_groups (order_members (where_members user_id ms)) gs

-- `id` is a primary key: it stands in one row at most.
abbrev pub IsKey : List ℕ → Type 0
IsKey ids = (k : ℕ) → count k ids ≤ 1

abbrev pub member_ids : List GroupMember → List ℕ
member_ids ms = map (λ m. m.id) ms

abbrev pub group_ids : List Group → List ℕ
group_ids gs = map (λ g. g.id) gs

length-where_members :
    (u : ℕ) (ms : List GroupMember) → length (where_members u ms) ≤ count u (member_ids ms)
unfolding where_members selects
length-where_members u [] = omega arith
length-where_members u (m ∷ ms) = ground (arith, length-where_members u ms)

length-insert_by_join :
    (m : GroupMember) (ks : List GroupMember) → length (insert_by_join m ks) ≡ suc (length ks)
unfolding insert_by_join
length-insert_by_join m [] = refl
length-insert_by_join m (k ∷ ks) = ground (arith, length-insert_by_join m ks)

length-order_members : (ms : List GroupMember) → length (order_members ms) ≡ length ms
unfolding order_members
length-order_members [] = refl
length-order_members (m ∷ ms) =
    ground (arith, length-insert_by_join m (order_members ms), length-order_members ms)

length-join_groups :
    (m : GroupMember) (gs : List Group)
    → length (join_groups m gs) ≤ count m.group_id (group_ids gs)
unfolding join_groups
length-join_groups m [] = omega arith
length-join_groups m (g ∷ gs) = ground (arith, length-join_groups m gs)

length-select_groups :
    (ms : List GroupMember) (gs : List Group)
    → IsKey (group_ids gs)
    → length (select_groups ms gs) ≤ length ms
unfolding select_groups
length-select_groups [] gs key = omega arith
length-select_groups (m ∷ ms) gs key = ground (
  arith,
  length-append (join_groups m gs) (select_groups ms gs),
  length-join_groups m gs,
  key m.group_id,
  length-select_groups ms gs key,
)

-- Where the ids of both tables are keys, the list of the groups of a user has one entry at most, however
-- many groups the user is in.
pub length-list_user_small_groups :
    (u : ℕ) (ms : List GroupMember) (gs : List Group)
    → IsKey (member_ids ms)
    → IsKey (group_ids gs)
    → length (list_user_small_groups u ms gs) ≤ 1
unfolding list_user_small_groups
length-list_user_small_groups u ms gs members groups = ground (
  arith,
  length-select_groups (order_members (where_members u ms)) gs groups,
  length-order_members (where_members u ms),
  length-where_members u ms,
  members u,
)

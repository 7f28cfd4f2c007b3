-- ===== src/Logic/AuthServer/SmallGroups/Tests.antt =====
-- User 7 is in the groups 3 and 4.
use likegochat.Prelude.{◌≤◌, List, [], ◌∷◌, length, arith}
use likegochat.Prelude.Bytes.{codes}
use likegochat.Logic.AuthServer.SmallGroups.{
  GroupMember, Group, IsKey, member_ids, group_ids, list_user_small_groups,
  length-list_user_small_groups,
}

abbrev members : List GroupMember
members =
    record { id = 1; group_id = 3; user_id = 7; user_status = 0; joined_at = 10 }
    ∷ record { id = 2; group_id = 4; user_id = 7; user_status = 0; joined_at = 20 }
    ∷ record { id = 7; group_id = 3; user_id = 8; user_status = 0; joined_at = 30 }
    ∷ []

abbrev groups : List Group
groups =
    record { id = 3; group_name = codes "a"; group_status = 0; member_count = 2 }
    ∷ record { id = 4; group_name = codes "b"; group_status = 0; member_count = 1 }
    ∷ []

members-IsKey : IsKey (member_ids members)
members-IsKey k = ground arith

groups-IsKey : IsKey (group_ids groups)
groups-IsKey k = ground arith

length-list_user_small_groups_example : length (list_user_small_groups 7 members groups) ≤ 1
length-list_user_small_groups_example =
    length-list_user_small_groups 7 members groups members-IsKey groups-IsKey

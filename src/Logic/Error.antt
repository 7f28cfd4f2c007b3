-- ===== src/Logic/Error.antt =====
-- The errors of the logic layer, one for each that internal/logic makes, and one for each kind that
-- it passes on.
pub data Error : Type 0 where
  redis_error db_error bad_number hash_error : Error
  invalid_session session_expired session_revoked empty_session : Error
  username_password_required bad_login refresh_failed groups_failed : Error
  self_message group_id_invalid content_empty topic_missing store_missing : Error
  member_check_failed not_a_member marshal_failed queue_failed : Error
  group_not_found query_group_failed insert_member_failed member_count_failed : Error
  invalid_group_id invalid_group_name invalid_user_id : Error

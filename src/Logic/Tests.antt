-- ===== src/Logic/Tests.antt =====
-- Concrete runs of the logic layer.
use likegochat.Prelude.{◌≡◌, ◌≢◌, [], ◌∷◌, ◌+◌, get_or, arith, ◌^◌}
use likegochat.Logic.MessageId.{issue, next_message_id, issue_distinct, next_message_id_repeats}

issue_distinct_example :
    get_or (issue 0 (9 ∷ 9 ∷ 8 ∷ [])) 0 0 ≢ get_or (issue 0 (9 ∷ 9 ∷ 8 ∷ [])) 2 0
issue_distinct_example =
    issue_distinct 0 (9 ∷ 9 ∷ 8 ∷ []) 0 2 (omega arith) (omega arith) (omega arith)

next_message_id_repeats_example : (next_message_id (3 + 2 ^ 20) 1000).1 ≡ (next_message_id 3 1000).1
next_message_id_repeats_example = next_message_id_repeats 3 1000

-- ===== src/Task/Persist/Tests.antt =====
-- Concrete insertions.
use likegochat.Prelude.{◌≡◌, List, [], ◌∷◌, ◌++◌, true, false, none, refl, arith, map, ltb, length}
use likegochat.Prelude.Bytes.{bytes_eq_refl}
use likegochat.Redis.{reply_lost, refused}
use likegochat.Task.Consumer.{ConsumerMessage}
use likegochat.Task.Group.{handled, unfinished}
use likegochat.Task.Persist.{
  MessageTables, Persist, StoredMessage, StoredGroupMessage, conflicts, group_conflicts, add_row,
  messages_topic, persist_retry, persist_claim,
}
use likegochat.Task.Persist.Once.{Stores, persist_retry-Stores}
use likegochat.Task.Persist.Tries.{tables, store_all, Fits}
use likegochat.Task.Persist.Claims.{persist_claim_lem}
use likegochat.Task.Persist.Refused.{persist_retry-unfinished}
use likegochat.Task.Samples.{decode_chat}

abbrev lists : MessageTables
lists = record {
  State = List StoredMessage × List StoredGroupMessage;
  messages = λ s. s.0;
  group_messages = λ s. s.1;
  fits = λ x. ltb (length x.content) 3;
  fits_group = λ x. true;
  create_message = λ x s. (add_row conflicts x s.0, s.1);
  create_group_message = λ x s. (s.0, add_row group_conflicts x s.1);
  created = λ x s h. (refl, refl);
  created_group = λ x s h. (refl, refl);
}

-- The first insertion loses its answer, the second does not arrive.
abbrev unlucky : Persist lists
unlucky = record { has_db = true; db = ([], []); net = reply_lost ∷ refused ∷ []; marked = [] }

abbrev hello : ConsumerMessage
hello = record { topic = messages_topic; value = 1 ∷ 1 ∷ 7 ∷ 1 ∷ 9 ∷ 5 ∷ []; offset = 4 }

hello-Fits : Fits decode_chat (λ b. none) lists hello
hello-Fits = (λ msg t e. ground (arith, e), λ msg t e. refl)

persist_retry-Stores_example :
    Stores decode_chat
      (λ b. none)
      lists
      (λ k. false)
      hello
      unlucky
      (persist_retry lists decode_chat (λ b. none) 3 (λ k. false) 0 hello unlucky)
persist_retry-Stores_example =
    persist_retry-Stores decode_chat (λ b. none) lists 3 (λ k. false) 0 hello unlucky refl
      hello-Fits (omega arith)

-- The message comes twice.
abbrev again : List ConsumerMessage
again = hello ∷ record hello { offset = 5 } ∷ []

persist_claim_lem_example :
    ((persist_claim lists decode_chat (λ b. none) 3 (λ k. false) again unlucky).1 ≡ handled)
    × (tables decode_chat
          (λ b. none)
          lists
          (persist_claim lists decode_chat (λ b. none) 3 (λ k. false) again unlucky).0
        ≡ store_all decode_chat (λ b. none) again ([], []))
    × ((persist_claim lists decode_chat (λ b. none) 3 (λ k. false) again unlucky).0.marked
        ≡ [] ++ map (λ m. m.offset) again)
persist_claim_lem_example =
    persist_claim_lem decode_chat (λ b. none) lists 3 (λ k. false) again unlucky refl
      (hello-Fits, (hello-Fits, tt)) (omega arith) (λ k. refl)

-- The table holds no content of three bytes.
abbrev too_long : ConsumerMessage
too_long = record hello { value = 1 ∷ 1 ∷ 7 ∷ 1 ∷ 9 ∷ 5 ∷ 8 ∷ 8 ∷ 8 ∷ [] }

persist_retry-unfinished_example :
    ((persist_retry lists decode_chat (λ b. none) 9 (λ k. false) 0 too_long unlucky).1 ≡ unfinished)
    × ((persist_retry lists decode_chat (λ b. none) 9 (λ k. false) 0 too_long unlucky).0.db
        ≡ ([], []))
    × ((persist_retry lists decode_chat (λ b. none) 9 (λ k. false) 0 too_long unlucky).0.marked
        ≡ [])
persist_retry-unfinished_example =
    persist_retry-unfinished decode_chat (λ b. none) lists 9 (λ k. false) 0 too_long
      (record {
        msg_id = 1;
        from_user_id = 1;
        to_user_id = 7;
        content = 8 ∷ 8 ∷ 8 ∷ [];
        msg_type = 1;
        create_time = 9;
        client_msg_id = 5;
      })
      unlucky refl (bytes_eq_refl messages_topic) refl refl (λ k. refl)

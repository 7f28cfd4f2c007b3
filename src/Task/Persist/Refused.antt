-- ===== src/Task/Persist/Refused.antt =====
-- A message that does not fit into its table.
use likegochat.Prelude.{
  ℕ, zero, suc, ◌+◌, ◌≡◌, ◌∙◌, refl, Bool, true, false, Option, some, arith, List-cases, inl, inr,
}
use likegochat.Prelude.Bytes.{Bytes, bytes_eq}
use likegochat.Redis.{Outcome-cases, err}
use likegochat.Logic.ChatServer.{Message, GroupMessage}
use likegochat.Task.Consumer.{ConsumerMessage, db_failed}
use likegochat.Task.Group.{unfinished}
use likegochat.Task.Persist.{
  MessageTables, Persist, messages_topic, insert_reached, create_row, persist_message,
  persist_attempt, persist_retry,
}
use likegochat.Task.Persist.Tries.{message_row}

module _ (unmarshal : Bytes → Option Message) (unmarshal_group : Bytes → Option GroupMessage)
    (mysql : MessageTables) where
  -- The attempt fails, and leaves the tables and the marks.
  record Fails (m : ConsumerMessage) (p : Persist mysql) : Type 0 where
    after : Persist mysql
    fails : persist_attempt mysql unmarshal unmarshal_group m p ≡ (after, err db_failed)
    same : after.db ≡ p.db
    marked : after.marked ≡ p.marked
    has_db : after.has_db ≡ p.has_db

  refuses :
      (m : ConsumerMessage) (msg : Message) (p : Persist mysql)
      → p.has_db ≡ true
      → bytes_eq m.topic messages_topic ≡ true
      → unmarshal m.value ≡ some msg
      → mysql.fits (message_row msg) ≡ false
      → Fails m p
  unfolding persist_attempt persist_message create_row insert_reached
  refuses m msg p d topic decoded unfit = elim (List-cases p.net) [
    | inl e ↦ record {
      after = p;
      fails = ground (arith, d, topic, decoded, unfit, e);
      same = refl;
      marked = refl;
      has_db = refl;
    }
    | inr ((o, rest), e) ↦ record {
      after = record p { net = rest };
      fails = ground (arith, d, topic, decoded, unfit, e, Outcome-cases o);
      same = refl;
      marked = refl;
      has_db = refl;
    }
  ]

  -- While the session lasts, the loop for a message whose row does not fit into the table never ends,
  -- whatever the fuel and although the database works: the message is neither stored nor marked, and the
  -- messages behind it wait.
  pub persist_retry-unfinished :
      (fuel : ℕ) (ends : ℕ → Bool) (n : ℕ) (m : ConsumerMessage) (msg : Message) (p : Persist mysql)
      → p.has_db ≡ true
      → bytes_eq m.topic messages_topic ≡ true
      → unmarshal m.value ≡ some msg
      → mysql.fits (message_row msg) ≡ false
      → ((k : ℕ) → ends k ≡ false)
      → let q = persist_retry mysql unmarshal unmarshal_group fuel ends n m p in
        (q.1 ≡ unfinished) × (q.0.db ≡ p.db) × (q.0.marked ≡ p.marked)
  unfolding persist_retry
  persist_retry-unfinished zero ends n m msg p d topic decoded unfit lasts = (refl, refl, refl)
  persist_retry-unfinished (suc fuel) ends n m msg p d topic decoded unfit lasts =
      let f = refuses m msg p d topic decoded unfit in
      let rest =
        persist_retry-unfinished fuel ends (n + 1) m msg f.after (f.has_db ∙ d) topic decoded unfit
          lasts in
      let next : persist_retry mysql unmarshal unmarshal_group (suc fuel) ends n m p
          ≡ persist_retry mysql unmarshal unmarshal_group fuel ends (n + 1) m f.after =
        ground (arith, f.fails, lasts n) in
      rw next (rest.0, rest.1 ∙ f.same, rest.2 ∙ f.marked)

-- ===== src/Task/Persist.antt =====
-- `PersistConsumer` of internal/task/consumer.go: the messages are written to MySQL, and a message is
-- tried again until that succeeds. The unique keys are those of sql/schema.sql.
pub mod Tries
pub mod Once
pub mod Refused
pub mod Claims
mod Tests
use likegochat.Prelude.{
  ℕ, zero, suc, ◌+◌, ◌==◌, ◌≡◌, Bool, true, false, ◌&&◌, ◌||◌, not, List, [], ◌∷◌, ◌++◌, Option,
  none, some, if◌then◌else◌,
}
use likegochat.Prelude.Bytes.{Bytes, bytes_eq, codes}
use likegochat.Redis.{Outcome, delivered, refused, reply_lost, Result, ok, err}
use likegochat.Logic.ChatServer.{Message, GroupMessage}
use likegochat.Task.Consumer.{ConsumerMessage, ConsumeError, db_nil, db_failed, unmarshal_failed}
use likegochat.Task.Group.{Fate, handled, stopped, unfinished, is_unmarshal_failed}

-- The rows of the two tables of messages; the time is in milliseconds.
pub record StoredMessage : Type 0 where
  pub msg_id : ℕ
  pub client_msg_id : ℕ
  pub from_user_id : ℕ
  pub to_user_id : ℕ
  pub content : Bytes
  pub msg_type : ℕ
  pub status : ℕ
  pub create_time : ℕ

pub record StoredGroupMessage : Type 0 where
  pub msg_id : ℕ
  pub client_msg_id : ℕ
  pub from_user_id : ℕ
  pub group_id : ℕ
  pub content : Bytes
  pub msg_type : ℕ
  pub status : ℕ
  pub create_time : ℕ

-- Whether two rows agree on one of the unique keys.
abbrev pub conflicts : StoredMessage → StoredMessage → Bool
conflicts x y =
    (x.msg_id == y.msg_id)
    || ((x.from_user_id == y.from_user_id)
        && ((x.to_user_id == y.to_user_id) && (x.client_msg_id == y.client_msg_id)))

abbrev pub group_conflicts : StoredGroupMessage → StoredGroupMessage → Bool
group_conflicts x y =
    (x.msg_id == y.msg_id)
    || ((x.from_user_id == y.from_user_id)
        && ((x.group_id == y.group_id) && (x.client_msg_id == y.client_msg_id)))

abbrev pub any_row : {A : Type 0} → (A → Bool) → List A → Bool
any_row f [] = false
any_row f (x ∷ xs) = f x || any_row f xs

-- The table after an insertion that ignores conflicts.
abbrev pub add_row : {A : Type 0} → (A → A → Bool) → A → List A → List A
add_row f x rows = if any_row (f x) rows then rows else rows ++ x ∷ []

-- MySQL: `clause.OnConflict{DoNothing: true}` leaves a table whose unique keys have the row already.
-- `fits` says that the columns of the table can hold a row, such as `content TEXT` its content; a row that
-- does not fit is refused with an error, whenever it comes.
pub record MessageTables : Type 1 where
  pub State : Type 0
  pub messages : State → List StoredMessage
  pub group_messages : State → List StoredGroupMessage
  pub fits : StoredMessage → Bool
  pub fits_group : StoredGroupMessage → Bool
  pub create_message : StoredMessage → State → State
  pub create_group_message : StoredGroupMessage → State → State
  pub created :
      (x : StoredMessage) (s : State)
      → fits x ≡ true
      → (messages (create_message x s) ≡ add_row conflicts x (messages s))
        × (group_messages (create_message x s) ≡ group_messages s)
  pub created_group :
      (x : StoredGroupMessage) (s : State)
      → fits_group x ≡ true
      → (messages (create_group_message x s) ≡ messages s)
        × (group_messages (create_group_message x s) ≡ add_row group_conflicts x (group_messages s))

abbrev pub messages_topic : Bytes
messages_topic = codes "chat_messages"

abbrev pub group_messages_topic : Bytes
group_messages_topic = codes "group_chat_messages"

-- gorm writes the default of a column for a field that is zero, and that of `msg_type` is 1.
abbrev pub or_default : ℕ → ℕ
or_default msg_type = if msg_type == 0 then 1 else msg_type

abbrev pub stored_message : Message → StoredMessage
stored_message msg = record {
  msg_id = msg.msg_id;
  client_msg_id = msg.client_msg_id;
  from_user_id = msg.from_user_id;
  to_user_id = msg.to_user_id;
  content = msg.content;
  msg_type = or_default msg.msg_type;
  status = 0;
  create_time = msg.create_time;
}

abbrev pub stored_group_message : GroupMessage → StoredGroupMessage
stored_group_message msg = record {
  msg_id = msg.msg_id;
  client_msg_id = msg.client_msg_id;
  from_user_id = msg.from_user_id;
  group_id = msg.group_id;
  content = msg.content;
  msg_type = or_default msg.msg_type;
  status = 0;
  create_time = msg.create_time;
}

module _ (mysql : MessageTables) where
  -- `has_db` says that `DB` is not nil; `net` has the outcomes of the insertions to come.
  pub record Persist : Type 0 where
    pub has_db : Bool
    pub db : mysql.State
    pub net : List Outcome
    pub marked : List ℕ

  -- The insertion of a row that fits, or does not, on the outcome of its round trip.
  pub insert_reached :
      Outcome
      → Bool
      → (mysql.State → mysql.State)
      → Persist
      → Persist × Result ConsumeError (Unit {0})
  insert_reached delivered true f p = (record p { db = f p.db }, ok tt)
  insert_reached delivered false f p = (p, err db_failed)
  insert_reached refused row_fits f p = (p, err db_failed)
  insert_reached reply_lost true f p = (record p { db = f p.db }, err db_failed)
  insert_reached reply_lost false f p = (p, err db_failed)

  -- One insertion, which may fail before or after it is carried out.
  pub create_row :
      Bool → (mysql.State → mysql.State) → Persist → Persist × Result ConsumeError (Unit {0})
  unfolding insert_reached
  create_row row_fits f p = elim p.net [
    | [] ↦ insert_reached delivered row_fits f p
    | o ∷ rest ↦ insert_reached o row_fits f (record p { net = rest })
  ]

  pub persist_message : Message → Persist → Persist × Result ConsumeError (Unit {0})
  unfolding create_row
  persist_message msg p =
      if not p.has_db
      then (p, err db_nil)
      else let row = stored_message msg in create_row (mysql.fits row) (mysql.create_message row) p

  pub persist_group_message : GroupMessage → Persist → Persist × Result ConsumeError (Unit {0})
  unfolding create_row
  persist_group_message msg p =
      if not p.has_db
      then (p, err db_nil)
      else let row = stored_group_message msg in
        create_row (mysql.fits_group row) (mysql.create_group_message row) p

  module _ (unmarshal : Bytes → Option Message)
      (unmarshal_group : Bytes → Option GroupMessage) where
    -- The switch on the topic.
    pub persist_attempt : ConsumerMessage → Persist → Persist × Result ConsumeError (Unit {0})
    unfolding persist_message persist_group_message
    persist_attempt m p =
        if bytes_eq m.topic messages_topic
        then (elim (unmarshal m.value) [
          | none ↦ (p, err unmarshal_failed)
          | some msg ↦ persist_message msg p
        ])
        else if bytes_eq m.topic group_messages_topic
        then (elim (unmarshal_group m.value) [
          | none ↦ (p, err unmarshal_failed)
          | some msg ↦ persist_group_message msg p
        ])
        else (p, ok tt)

    -- The loop of `ConsumeClaim` for one message; `ends` says whether the session ends in the pause
    -- after the n-th attempt, and the first argument is fuel.
    pub persist_retry : ℕ → (ℕ → Bool) → ℕ → ConsumerMessage → Persist → Persist × Fate
    unfolding persist_attempt
    persist_retry zero ends n m p = (p, unfinished)
    persist_retry (suc fuel) ends n m p =
        let tried = persist_attempt m p in
        let mark : Persist = record tried.0 { marked = tried.0.marked ++ m.offset ∷ [] } in
        elim tried.1 [
          | ok done ↦ (mark, handled)
          | err e ↦ elim (is_unmarshal_failed e) [
            | true ↦ (mark, handled)
            | false ↦ elim (ends n) [
              | true ↦ (tried.0, stopped)
              | false ↦ persist_retry fuel ends (n + 1) m tried.0
            ]
          ]
        ]

    -- `ConsumeClaim` on the messages of a claim, and whether the session has ended meanwhile.
    pub persist_claim : ℕ → (ℕ → Bool) → List ConsumerMessage → Persist → Persist × Fate
    unfolding persist_retry
    persist_claim fuel ends [] p = (p, handled)
    persist_claim fuel ends (m ∷ ms) p =
        let (p', fate) = persist_retry fuel ends 0 m p in
        elim fate [
          | handled ↦ persist_claim fuel ends ms p'
          | stopped ↦ (p', stopped)
          | unfinished ↦ (p', unfinished)
        ]

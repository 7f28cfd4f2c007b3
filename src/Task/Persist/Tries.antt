-- ===== src/Task/Persist/Tries.antt =====
-- What a message from the queue means to the tables, and what an attempt to store it does.
use likegochat.Prelude.{
  ◌≡◌, ◌<◌, ◌≤◌, ◌⊎◌, refl, Bool, true, false, List, [], ◌∷◌, ◌++◌, ◌==◌, ◌||◌, ◌&&◌, Option, none,
  some, if◌then◌else◌, arith, Bool-cases, Option-cases, inl, inr, length,
}
use likegochat.Prelude.Bytes.{Bytes, bytes_eq, codes}
use likegochat.Redis.{Outcome, delivered, refused, reply_lost, Result, ok, err}
use likegochat.Logic.ChatServer.{Message, GroupMessage}
use likegochat.Task.Consumer.{ConsumerMessage, ConsumeError, unmarshal_failed}
use likegochat.Task.Group.{is_unmarshal_failed}
use likegochat.Task.Persist.{
  StoredMessage, StoredGroupMessage, MessageTables, Persist, conflicts, group_conflicts, any_row,
  add_row, messages_topic, group_messages_topic, stored_message, stored_group_message,
  insert_reached, create_row, persist_message, persist_group_message, persist_attempt,
}

any_row-last :
    {A : Type 0} (f : A → Bool) (rows : List A) (x : A)
    → f x ≡ true
    → any_row f (rows ++ x ∷ []) ≡ true
any_row-last f [] x h = ground (arith, h)
any_row-last f (y ∷ rows) x h = ground (arith, any_row-last f rows x h)

add_row-twice :
    {A : Type 0} (f : A → A → Bool) (x : A) (rows : List A)
    → f x x ≡ true
    → add_row f x (add_row f x rows) ≡ add_row f x rows
add_row-twice f x rows h = elim (Bool-cases (any_row (f x) rows)) [
  | inl e ↦ ground (arith, e)
  | inr e ↦ ground (arith, e, any_row-last (f x) rows x h)
]

conflicts_refl : (x : StoredMessage) → conflicts x x ≡ true
conflicts_refl x = ground arith

group_conflicts_refl : (x : StoredGroupMessage) → group_conflicts x x ≡ true
group_conflicts_refl x = ground arith

-- The row that a message is to have in the table of messages.
abbrev pub message_row : Message → StoredMessage
message_row msg = record {
  msg_id = msg.msg_id;
  client_msg_id = msg.client_msg_id;
  from_user_id = msg.from_user_id;
  to_user_id = msg.to_user_id;
  content = msg.content;
  msg_type = if msg.msg_type == 0 then 1 else msg.msg_type;
  status = 0;
  create_time = msg.create_time;
}

-- The row that a message is to have in the table of the messages to groups.
abbrev pub group_message_row : GroupMessage → StoredGroupMessage
group_message_row msg = record {
  msg_id = msg.msg_id;
  client_msg_id = msg.client_msg_id;
  from_user_id = msg.from_user_id;
  group_id = msg.group_id;
  content = msg.content;
  msg_type = if msg.msg_type == 0 then 1 else msg.msg_type;
  status = 0;
  create_time = msg.create_time;
}

-- The unique keys of the two tables: the id, and the two ends with the client's id.
abbrev pub same_message : StoredMessage → StoredMessage → Bool
same_message x y =
    (x.msg_id == y.msg_id)
    || ((x.from_user_id == y.from_user_id)
        && ((x.to_user_id == y.to_user_id) && (x.client_msg_id == y.client_msg_id)))

abbrev pub same_group_message : StoredGroupMessage → StoredGroupMessage → Bool
same_group_message x y =
    (x.msg_id == y.msg_id)
    || ((x.from_user_id == y.from_user_id)
        && ((x.group_id == y.group_id) && (x.client_msg_id == y.client_msg_id)))

-- The two tables.
abbrev pub Tables : Type 0
Tables = List StoredMessage × List StoredGroupMessage

module _ (unmarshal : Bytes → Option Message) (unmarshal_group : Bytes → Option GroupMessage) where
  -- What a message from the queue means to the tables: a row more in one of them, unless a unique key
  -- has it already; bytes that are no message, and other topics, mean nothing.
  unfoldable pub store : ConsumerMessage → Tables → Tables
  store m v =
      if bytes_eq m.topic (codes "chat_messages")
      then (elim (unmarshal m.value) [
        | none ↦ v
        | some msg ↦ (add_row same_message (message_row msg) v.0, v.1)
      ])
      else if bytes_eq m.topic (codes "group_chat_messages")
      then (elim (unmarshal_group m.value) [
        | none ↦ v
        | some msg ↦ (v.0, add_row same_group_message (group_message_row msg) v.1)
      ])
      else v

  abbrev pub store_all : List ConsumerMessage → Tables → Tables
  store_all [] v = v
  store_all (m ∷ ms) v = store_all ms (store m v)

  -- Storing a message again changes nothing.
  pub store-twice : (m : ConsumerMessage) (v : Tables) → store m (store m v) ≡ store m v
  unfolding store
  store-twice m v = elim (Bool-cases (bytes_eq m.topic messages_topic)) [
    | inl e ↦ elim (Option-cases (unmarshal m.value)) [
      | inl f ↦ ground (arith, e, f)
      | inr (msg, f) ↦
          let x = message_row msg in
          ground (arith, e, f, add_row-twice conflicts x v.0 (conflicts_refl x))
    ]
    | inr e ↦ elim (Bool-cases (bytes_eq m.topic group_messages_topic)) [
      | inl g ↦ elim (Option-cases (unmarshal_group m.value)) [
        | inl f ↦ ground (arith, e, g, f)
        | inr (msg, f) ↦
            let x = group_message_row msg in
            ground (arith, e, g, f, add_row-twice group_conflicts x v.1 (group_conflicts_refl x))
      ]
      | inr g ↦ ground (arith, e, g)
    ]
  ]

  module _ (mysql : MessageTables) where
    -- What a message is to store fits into its table.
    abbrev pub Fits : ConsumerMessage → Type 0
    Fits m =
        ((msg : Message)
          → bytes_eq m.topic messages_topic ≡ true
          → unmarshal m.value ≡ some msg
          → mysql.fits (message_row msg) ≡ true)
        × ((msg : GroupMessage)
            → bytes_eq m.topic group_messages_topic ≡ true
            → unmarshal_group m.value ≡ some msg
            → mysql.fits_group (group_message_row msg) ≡ true)

    abbrev pub tables : Persist mysql → Tables
    tables p = (mysql.messages p.db, mysql.group_messages p.db)

    -- An attempt that is to store a message leaves the tables or stores it; it has stored it where it
    -- succeeds, and where it fails one outcome has been used up.
    pub record Tries (v : Tables) (p : Persist mysql)
        (q : Persist mysql × Result ConsumeError (Unit {0})) : Type 0 where
      pub seen : (tables q.0 ≡ tables p) ⊎ (tables q.0 ≡ v)
      pub stored : q.1 ≡ ok tt → tables q.0 ≡ v
      pub dropped : (x : ConsumeError) → q.1 ≡ err x → is_unmarshal_failed x ≡ true → tables q.0 ≡ v
      pub bounded : length q.0.net ≤ length p.net
      pub failed :
          (x : ConsumeError)
          → q.1 ≡ err x
          → is_unmarshal_failed x ≡ false
          → length q.0.net < length p.net
      pub marked : q.0.marked ≡ p.marked
      pub has_db : q.0.has_db ≡ p.has_db

    create_row-at :
        (f : mysql.State → mysql.State) (v : Tables) (p : Persist mysql) (net : List Outcome)
        → (mysql.messages (f p.db), mysql.group_messages (f p.db)) ≡ v
        → Tries v (record p { net = net }) (create_row mysql true f (record p { net = net }))
    unfolding create_row insert_reached
    create_row-at f v p [] h = record {
      seen = inr h;
      stored = λ g. h;
      dropped = λ x g b. absurd (ground (arith, g));
      bounded = omega arith;
      failed = λ x g b. absurd (ground (arith, g));
      marked = refl;
      has_db = refl;
    }
    create_row-at f v p (delivered ∷ rest) h = record {
      seen = inr h;
      stored = λ g. h;
      dropped = λ x g b. absurd (ground (arith, g));
      bounded = omega arith;
      failed = λ x g b. omega arith;
      marked = refl;
      has_db = refl;
    }
    create_row-at f v p (refused ∷ rest) h = record {
      seen = inl refl;
      stored = λ g. absurd (ground (arith, g));
      dropped = λ x g b. absurd (ground (arith, g, b));
      bounded = omega arith;
      failed = λ x g b. omega arith;
      marked = refl;
      has_db = refl;
    }
    create_row-at f v p (reply_lost ∷ rest) h = record {
      seen = inr h;
      stored = λ g. h;
      dropped = λ x g b. h;
      bounded = omega arith;
      failed = λ x g b. omega arith;
      marked = refl;
      has_db = refl;
    }

    nothing-Tries :
        (p : Persist mysql) (res : Result ConsumeError (Unit {0}))
        → ((x : ConsumeError) → res ≡ err x → is_unmarshal_failed x ≡ true)
        → Tries (tables p) p (p, res)
    nothing-Tries p res h = record {
      seen = inl refl;
      stored = λ g. refl;
      dropped = λ x g b. refl;
      bounded = omega arith;
      failed = λ x g b. absurd (ground (arith, h x g, b));
      marked = refl;
      has_db = refl;
    }

    persist_message-Tries :
        (msg : Message) (p : Persist mysql)
        → p.has_db ≡ true
        → mysql.fits (message_row msg) ≡ true
        → Tries
            (add_row conflicts (message_row msg) (tables p).0, (tables p).1)
            p
            (persist_message mysql msg p)
    unfolding persist_message
    persist_message-Tries msg p d fit =
        let x = stored_message msg in
        let opened : persist_message mysql msg p
            ≡ create_row mysql true (mysql.create_message x) p =
          ground (arith, d, fit) in
        rw opened (
          create_row-at (mysql.create_message x) _ p p.net
            (ground (arith, mysql.created x p.db fit)))

    persist_group_message-Tries :
        (msg : GroupMessage) (p : Persist mysql)
        → p.has_db ≡ true
        → mysql.fits_group (group_message_row msg) ≡ true
        → Tries
            ((tables p).0, add_row group_conflicts (group_message_row msg) (tables p).1)
            p
            (persist_group_message mysql msg p)
    unfolding persist_group_message
    persist_group_message-Tries msg p d fit =
        let x = stored_group_message msg in
        let opened : persist_group_message mysql msg p
            ≡ create_row mysql true (mysql.create_group_message x) p =
          ground (arith, d, fit) in
        rw opened (
          create_row-at (mysql.create_group_message x) _ p p.net
            (ground (arith, mysql.created_group x p.db fit)))

    pub persist_attempt-Tries :
        (m : ConsumerMessage) (p : Persist mysql)
        → p.has_db ≡ true
        → Fits m
        → Tries (store m (tables p)) p (persist_attempt mysql unmarshal unmarshal_group m p)
    unfolding persist_attempt store
    persist_attempt-Tries m p d fit = elim (Bool-cases (bytes_eq m.topic messages_topic)) [
      | inl e ↦ elim (Option-cases (unmarshal m.value)) [
        | inl f ↦
            rw (persist_attempt, store, e, f)
              (nothing-Tries p (err unmarshal_failed) (λ x g. ground (arith, g)))
        | inr (msg, f) ↦
            rw (persist_attempt, store, e, f) (persist_message-Tries msg p d (fit.0 msg e f))
      ]
      | inr e ↦ elim (Bool-cases (bytes_eq m.topic group_messages_topic)) [
        | inl g ↦ elim (Option-cases (unmarshal_group m.value)) [
          | inl f ↦
              rw (persist_attempt, store, e, g, f)
                (nothing-Tries p (err unmarshal_failed) (λ x g. ground (arith, g)))
          | inr (msg, f) ↦
              rw (persist_attempt, store, e, g, f)
                (persist_group_message-Tries msg p d (fit.1 msg g f))
        ]
        | inr g ↦
            rw (persist_attempt, store, e, g)
              (nothing-Tries p (ok tt) (λ x h. absurd (ground (arith, h))))
      ]
    ]

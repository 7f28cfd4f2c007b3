-- ===== src/Task/Persist/Once.antt =====
-- A message is stored once, however often its insertion is tried.
use likegochat.Task.Persist.Tries.{persist_attempt-Tries, tables, Tables, Fits, store, store-twice}
use likegochat.Prelude.{
  ℕ, zero, suc, ◌+◌, ◌≡◌, ◌<◌, ◌⊎◌, ◌∙◌, ap, refl, Bool, true, [], ◌∷◌, ◌++◌, Option, arith,
  Bool-cases, inl, inr, length,
}
use likegochat.Prelude.Bytes.{Bytes}
use likegochat.Redis.{Result-cases}
use likegochat.Logic.ChatServer.{Message, GroupMessage}
use likegochat.Task.Consumer.{ConsumerMessage}
use likegochat.Task.Group.{Fate, handled, stopped, is_unmarshal_failed}
use likegochat.Task.Persist.{MessageTables, Persist, persist_attempt, persist_retry}

module _ (unmarshal : Bytes → Option Message) (unmarshal_group : Bytes → Option GroupMessage) where
  module _ (mysql : MessageTables) where
    -- How the loop for a message ends: the tables have the message, and it is marked; or the session
    -- has ended, it is not marked, and the tables have it or are as they were.
    abbrev pub Stores : (ℕ → Bool) → ConsumerMessage → Persist mysql → Persist mysql × Fate → Type 0
    Stores ends m p q =
        ((q.1 ≡ handled)
          × (tables unmarshal unmarshal_group mysql q.0
              ≡ store unmarshal unmarshal_group m (tables unmarshal unmarshal_group mysql p))
          × (q.0.marked ≡ p.marked ++ m.offset ∷ []))
        ⊎ ((q.1 ≡ stopped)
            × ((tables unmarshal unmarshal_group mysql q.0
                  ≡ tables unmarshal unmarshal_group mysql p)
                ⊎ (tables unmarshal unmarshal_group mysql q.0
                    ≡ store unmarshal unmarshal_group m (tables unmarshal unmarshal_group mysql p)))
            × (q.0.marked ≡ p.marked)
            × ((k : ℕ) × (ends k ≡ true)))

    -- Over a message that is stored already, storing it is nothing.
    store-after :
        (m : ConsumerMessage) (v w : Tables)
        → (w ≡ v) ⊎ (w ≡ store unmarshal unmarshal_group m v)
        → store unmarshal unmarshal_group m w ≡ store unmarshal unmarshal_group m v
    store-after m v w (inl e) = ap (store unmarshal unmarshal_group m) e
    store-after m v w (inr e) =
        ap (store unmarshal unmarshal_group m) e ∙ store-twice unmarshal unmarshal_group m v

    reached :
        (m : ConsumerMessage) (v w x : Tables)
        → (w ≡ v) ⊎ (w ≡ store unmarshal unmarshal_group m v)
        → (x ≡ w) ⊎ (x ≡ store unmarshal unmarshal_group m w)
        → (x ≡ v) ⊎ (x ≡ store unmarshal unmarshal_group m v)
    reached m v w x h (inr k) = inr (k ∙ store-after m v w h)
    reached m v w x (inl e) (inl k) = inl (k ∙ e)
    reached m v w x (inr e) (inl k) = inr (k ∙ e)

    -- With a database, for a message that fits into its table, and more fuel than there are outcomes to
    -- come, the loop for a message ends, also where an insertion that was reported as a failure has been
    -- carried out: the message is marked once, and the tables are as before but for its row at the end of
    -- its table, unless a unique key is there already, or the message has no such row, because it cannot be
    -- decoded or has another topic. Or the session ends before, and the message is not marked.
    pub persist_retry-Stores :
        (fuel : ℕ) (ends : ℕ → Bool) (n : ℕ) (m : ConsumerMessage) (p : Persist mysql)
        → p.has_db ≡ true
        → Fits unmarshal unmarshal_group mysql m
        → length p.net < fuel
        → Stores ends m p (persist_retry mysql unmarshal unmarshal_group fuel ends n m p)
    unfolding persist_retry
    persist_retry-Stores zero ends n m p d fit h = absurd (omega (arith, h))
    persist_retry-Stores (suc fuel) ends n m p d fit h =
        let tried = persist_attempt mysql unmarshal unmarshal_group m p in
        let t = persist_attempt-Tries unmarshal unmarshal_group mysql m p d fit in
        elim (Result-cases tried.1) [
          | inl (tt, e) ↦
              inl (ground (arith, e), ground (arith, e, t.stored e), ground (arith, e, t.marked))
          | inr (x, e) ↦ elim (Bool-cases (is_unmarshal_failed x)) [
            | inl b ↦ inl (
              ground (arith, e, b),
              ground (arith, e, b, t.dropped x e b),
              ground (arith, e, b, t.marked),
            )
            | inr b ↦ elim (Bool-cases (ends n)) [
              | inl s ↦
                  let halt : persist_retry mysql unmarshal unmarshal_group (suc fuel) ends n m p
                      ≡ (tried.0, stopped) =
                    ground (arith, e, b, s) in
                  rw halt (inr (refl, t.seen, t.marked, (n, s)))
              | inr s ↦
                  let next : persist_retry mysql unmarshal unmarshal_group (suc fuel) ends n m p
                      ≡ persist_retry mysql unmarshal unmarshal_group fuel ends (n + 1) m tried.0 =
                    ground (arith, e, b, s) in
                  rw next
                    (elim (persist_retry-Stores fuel ends (n + 1) m tried.0 (t.has_db ∙ d) fit
                      (omega (arith, t.failed x e b))) [
                        | inl k ↦ inl (
                          k.0,
                          k.1
                              ∙ store-after m (tables unmarshal unmarshal_group mysql p)
                                  (tables unmarshal unmarshal_group mysql tried.0) t.seen,
                          ground (arith, k.2, t.marked),
                        )
                        | inr k ↦ inr (
                          k.0,
                          reached m (tables unmarshal unmarshal_group mysql p)
                              (tables unmarshal unmarshal_group mysql tried.0) _ t.seen k.1,
                          k.2 ∙ t.marked,
                          k.3,
                        )
                      ])
            ]
          ]
        ]

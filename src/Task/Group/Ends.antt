-- ===== src/Task/Group/Ends.antt =====
-- The loop around a group message ends.
use likegochat.Prelude.{
  ℕ, zero, suc, ◌+◌, ◌≡◌, ◌<◌, ◌==◌, ◌⊎◌, Bool, true, false, List, [], ◌∷◌, ◌++◌, Option, some,
  arith, Bool-cases, Option-cases, inl, inr,
}
use likegochat.Prelude.Bytes.{Bytes}
use likegochat.Redis.{Redis, Result-cases, err}
use likegochat.Logic.ChatServer.{GroupMessage}
use likegochat.Task.Consumer.{Task, ConsumerMessage, mark_message, unmarshal_failed}
use likegochat.Task.Group.{
  Fate, handled, stopped, handle_group_message, consume_group, is_unmarshal_failed,
}
use likegochat.Task.Group.Attempts.{to_come, Uses}
use likegochat.Task.Group.Refreshes.{handle_small_group_message-Uses}

module _ (r : Redis) (dial : Bytes → Bool) (prefers_done : ℕ → Bool) (rows : ℕ → List ℕ)
    (unmarshal : Bytes → Option GroupMessage) where
  abbrev members : ℕ → Option (List ℕ)
  members i = some (rows i)

  -- The loop ends with the message marked once, or with the end of the session and the message
  -- unmarked.
  abbrev pub Ends : (ℕ → Bool) → ConsumerMessage → Task r → Task r × Fate → Type 0
  Ends ends m t p =
      ((p.1 ≡ handled) × (p.0.marked ≡ t.marked ++ m.offset ∷ []))
      ⊎ ((p.1 ≡ stopped) × (p.0.marked ≡ t.marked) × ((k : ℕ) × (ends k ≡ true)))

  -- An attempt either has an error that drops the message, or it marks nothing and uses up an outcome
  -- where it fails.
  attempt :
      (m : ConsumerMessage) (t : Task r)
      → ((gm : GroupMessage) → unmarshal m.value ≡ some gm → (gm.group_id == 0) ≡ false)
      → (handle_group_message r dial prefers_done members unmarshal m t ≡ (t, err unmarshal_failed))
        ⊎ Uses r t (handle_group_message r dial prefers_done members unmarshal m t)
  unfolding handle_group_message
  attempt m t ids = elim (Option-cases (unmarshal m.value)) [
    | inl e ↦ inl (ground (arith, e))
    | inr (gm, e) ↦ inr (
        rw (handle_group_message, e)
          (handle_small_group_message-Uses r dial prefers_done rows gm m.value t (ids gm e)))
  ]

  -- While the database answers, with more fuel than there are outcomes to come the loop ends: a message
  -- of a group other than 0, or one that is no message, is marked once, or the session ends before.
  pub consume_group-Ends :
      (fuel : ℕ) (ends : ℕ → Bool) (n : ℕ) (m : ConsumerMessage) (t : Task r)
      → ((gm : GroupMessage) → unmarshal m.value ≡ some gm → (gm.group_id == 0) ≡ false)
      → to_come r t < fuel
      → Ends ends m t (consume_group r dial prefers_done members unmarshal fuel ends n m t)
  unfolding consume_group mark_message
  consume_group-Ends zero ends n m t ids h = absurd (omega (arith, h))
  consume_group-Ends (suc fuel) ends n m t ids h =
      let tried = handle_group_message r dial prefers_done members unmarshal m t in
      elim (attempt m t ids) [
        | inl e ↦ inl (ground (arith, e), ground (arith, e))
        | inr u ↦ elim (Result-cases tried.1) [
          | inl (done, e) ↦ inl (ground (arith, e), ground (arith, e, u.marked))
          | inr (x, e) ↦ elim (Bool-cases (is_unmarshal_failed x)) [
            | inl d ↦ inl (ground (arith, e, d), ground (arith, e, d, u.marked))
            | inr d ↦ elim (Bool-cases (ends n)) [
              | inl s ↦ inr (ground (arith, e, d, s), ground (arith, e, d, s, u.marked), (n, s))
              | inr s ↦
                  let rest =
                    consume_group-Ends fuel ends (n + 1) m tried.0 ids
                      (omega (arith, u.failed x e)) in
                  elim rest [
                    | inl f ↦
                        inl (ground (arith, e, d, s, f.0), ground (arith, e, d, s, f.1, u.marked))
                    | inr f ↦
                        inr (
                          ground (arith, e, d, s, f.0),
                          ground (arith, e, d, s, f.1, u.marked),
                          f.2,
                        )
                  ]
            ]
          ]
        ]
      ]

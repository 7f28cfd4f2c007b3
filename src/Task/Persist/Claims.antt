-- ===== src/Task/Persist/Claims.antt =====
-- A claim stores its messages in order, each once.
use mathlib.Core.List.{append-nil, append_assoc}
use likegochat.Prelude.{
  ℕ, zero, suc, ◌+◌, ◌≡◌, ◌<◌, ◌≤◌, ◌∙◌, ap, refl, sym, Bool, true, false, List, [], ◌∷◌, ◌++◌,
  Option, map, arith, Bool-cases, inl, inr, length,
}
use likegochat.Prelude.Bytes.{Bytes}
use likegochat.Redis.{Result-cases}
use likegochat.Logic.ChatServer.{Message, GroupMessage}
use likegochat.Task.Consumer.{ConsumerMessage}
use likegochat.Task.Group.{handled, is_unmarshal_failed}
use likegochat.Task.Persist.{MessageTables, Persist, persist_attempt, persist_retry, persist_claim}
use likegochat.Task.Persist.Once.{persist_retry-Stores}
use likegochat.Task.Persist.Tries.{store_all, tables, Fits, persist_attempt-Tries}

module _ (unmarshal : Bytes → Option Message) (unmarshal_group : Bytes → Option GroupMessage)
    (mysql : MessageTables) where
  -- The loop keeps the database and adds no outcomes.
  persist_retry_keeps :
      (fuel : ℕ) (ends : ℕ → Bool) (n : ℕ) (m : ConsumerMessage) (p : Persist mysql)
      → p.has_db ≡ true
      → Fits unmarshal unmarshal_group mysql m
      → let q = (persist_retry mysql unmarshal unmarshal_group fuel ends n m p).0 in
        (q.has_db ≡ true) × (length q.net ≤ length p.net)
  unfolding persist_retry
  persist_retry_keeps zero ends n m p d fit = (d, omega arith)
  persist_retry_keeps (suc fuel) ends n m p d fit =
      let tried = persist_attempt mysql unmarshal unmarshal_group m p in
      let t = persist_attempt-Tries unmarshal unmarshal_group mysql m p d fit in
      let rest = persist_retry_keeps fuel ends (n + 1) m tried.0 (t.has_db ∙ d) fit in
      elim (Result-cases tried.1) [
        | inl (done, e) ↦ (ground (arith, e, t.has_db, d), ground (arith, e, t.bounded))
        | inr (x, e) ↦ elim (Bool-cases (is_unmarshal_failed x)) [
          | inl b ↦ (ground (arith, e, b, t.has_db, d), ground (arith, e, b, t.bounded))
          | inr b ↦ elim (Bool-cases (ends n)) [
            | inl s ↦ (ground (arith, e, b, s, t.has_db, d), ground (arith, e, b, s, t.bounded))
            | inr s ↦ (ground (arith, e, b, s, rest.0), ground (arith, e, b, s, t.bounded, rest.1))
          ]
        ]
      ]

  abbrev pub AllFit : List ConsumerMessage → Type 0
  AllFit [] = Unit {0}
  AllFit (m ∷ ms) = Fits unmarshal unmarshal_group mysql m × AllFit ms

  -- While the session lasts, with a database, messages that fit into their tables, and more fuel than
  -- there are outcomes to come, a claim is handled whole: its messages are marked in order, and each in
  -- turn has added its row to its table, unless a unique key was there already, or it cannot be decoded
  -- or has another topic.
  pub persist_claim_lem :
      (fuel : ℕ) (ends : ℕ → Bool) (ms : List ConsumerMessage) (p : Persist mysql)
      → p.has_db ≡ true
      → AllFit ms
      → length p.net < fuel
      → ((k : ℕ) → ends k ≡ false)
      → let q = persist_claim mysql unmarshal unmarshal_group fuel ends ms p in
        (q.1 ≡ handled)
        × (tables unmarshal unmarshal_group mysql q.0
            ≡ store_all unmarshal unmarshal_group ms (tables unmarshal unmarshal_group mysql p))
        × (q.0.marked ≡ p.marked ++ map (λ m. m.offset) ms)
  unfolding persist_claim
  persist_claim_lem fuel ends [] p d fit h lasts = (refl, refl, sym (append-nil p.marked))
  persist_claim_lem fuel ends (m ∷ ms) p d fit h lasts =
      let q = persist_retry mysql unmarshal unmarshal_group fuel ends 0 m p in
      let kept = persist_retry_keeps fuel ends 0 m p d fit.0 in
      let rest = persist_claim_lem fuel ends ms q.0 kept.0 fit.1 (omega (arith, kept.1)) lasts in
      elim (persist_retry-Stores unmarshal unmarshal_group mysql fuel ends 0 m p d fit.0 h) [
        | inr k ↦ absurd (ground (arith, k.3.1, lasts k.3.0))
        | inl k ↦
            let next : persist_claim mysql unmarshal unmarshal_group fuel ends (m ∷ ms) p
                ≡ persist_claim mysql unmarshal unmarshal_group fuel ends ms q.0 =
              ground (arith, k.0) in
            rw next (
              rest.0,
              rest.1 ∙ ap (store_all unmarshal unmarshal_group ms) k.1,
              rest.2
                  ∙ ap (λ l. l ++ map (λ m'. m'.offset) ms) k.2
                  ∙ append_assoc p.marked (m.offset ∷ []) (map (λ m'. m'.offset) ms),
            )
      ]

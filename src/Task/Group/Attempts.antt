-- ===== src/Task/Group/Attempts.antt =====
-- What an attempt to push a group message uses up.
use likegochat.Prelude.{
  ℕ, ◌+◌, ◌≡◌, ◌<◌, ◌≤◌, Bool, true, false, List, [], ◌∷◌, is_empty, length, arith, Bool-cases,
  List-cases, inl, inr, refl, ◌∙◌,
}
use likegochat.Prelude.Bytes.{Bytes}
use likegochat.Prelude.Dicts.{Dict}
use likegochat.Redis.{Redis, Result, ok, err}
use likegochat.Logic.ChatServer.{GroupMessage}
use likegochat.Task.Consumer.{Task, ConsumeError, push_to_connect, expired, wait_token}
use likegochat.Task.Consumer.Calls.{push_to_connect-Frames}
use likegochat.Task.Group.{drop_sender, push_each}

module _ (r : Redis) where
  -- The outcomes to come: of the round trips, of the calls and of the waits.
  unfoldable pub to_come : Task r → ℕ
  to_come t = length t.world.net + length t.rpc + length t.waits

  -- An attempt marks nothing, and it uses up one outcome at least where it fails.
  pub record Uses {A : Type 0} (t : Task r) (p : Task r × Result ConsumeError A) : Type 0 where
    pub bounded : to_come p.0 ≤ to_come t
    pub marked : p.0.marked ≡ t.marked
    pub failed : (x : ConsumeError) → p.1 ≡ err x → to_come p.0 < to_come t

  pub succeeds-Uses :
      {A : Type 0} (a : A) (t t' : Task r)
      → to_come t' ≤ to_come t
      → t'.marked ≡ t.marked
      → Uses t (t', ok a)
  succeeds-Uses a t t' h m = record {
    bounded = h;
    marked = m;
    failed = λ x e. absurd (ground (arith, e));
  }

  pub fails-Uses :
      {A : Type 0} (x : ConsumeError) (t t' : Task r)
      → to_come t' < to_come t
      → t'.marked ≡ t.marked
      → Uses {A = A} t (t', err x)
  fails-Uses x t t' h m = record { bounded = omega arith; marked = m; failed = λ y e. h }

  -- What has been used up before counts, too.
  pub later-Uses :
      {A : Type 0} {t t' : Task r} {p : Task r × Result ConsumeError A}
      → to_come t' ≤ to_come t
      → t'.marked ≡ t.marked
      → Uses t' p
      → Uses t p
  later-Uses h m u = record {
    bounded = omega (arith, u.bounded);
    marked = ground (arith, m, u.marked);
    failed = λ x e. omega (arith, u.failed x e);
  }

  -- A wait takes one of the waits to come, if there is one, and one at least where it fails.
  record Waits (t t' : Task r) (got : Bool) : Type 0 where
    world : t'.world ≡ t.world
    rpc : t'.rpc ≡ t.rpc
    marked : t'.marked ≡ t.marked
    waits : length t'.waits ≤ length t.waits
    failed : got ≡ false → length t'.waits < length t.waits

  module _ (dial : Bytes → Bool) (prefers_done : ℕ → Bool) where
    wait_token-Waits : (t : Task r) → Waits t (wait_token r t).0 (wait_token r t).1
    unfolding wait_token
    wait_token-Waits t = elim (List-cases t.waits) [
      | inl w ↦ record {
        world = ground (arith, w);
        rpc = ground (arith, w);
        marked = ground (arith, w);
        waits = ground (arith, w);
        failed = λ h. absurd (ground (arith, w, h));
      }
      | inr ((ended, ws), w) ↦ record {
        world = ground (arith, w);
        rpc = ground (arith, w);
        marked = ground (arith, w);
        waits = ground (arith, w);
        failed = λ h. ground (arith, w);
      }
    ]

    pub push_each_skip :
        (gm : GroupMessage) (payload sid : Bytes) (us : List ℕ) (rest : Dict (List ℕ)) (t : Task r)
        → is_empty (drop_sender gm.from_user_id us) ≡ true
        → push_each r dial prefers_done gm payload ((sid, us) ∷ rest) t
          ≡ push_each r dial prefers_done gm payload rest t
    unfolding push_each
    push_each_skip gm payload sid us rest t e = ground (arith, e)

    push_each_expired :
        (gm : GroupMessage) (payload sid : Bytes) (us : List ℕ) (rest : Dict (List ℕ)) (t : Task r)
        → is_empty (drop_sender gm.from_user_id us) ≡ false
        → (wait_token r t).1 ≡ false
        → push_each r dial prefers_done gm payload ((sid, us) ∷ rest) t
          ≡ ((wait_token r t).0, err expired)
    unfolding push_each
    push_each_expired gm payload sid us rest t e w = ground (arith, e, w)

    pub push_each_go :
        (gm : GroupMessage) (payload sid : Bytes) (us : List ℕ) (rest : Dict (List ℕ)) (t : Task r)
        → is_empty (drop_sender gm.from_user_id us) ≡ false
        → (wait_token r t).1 ≡ true
        → push_each r dial prefers_done gm payload ((sid, us) ∷ rest) t
          ≡ push_each r dial prefers_done gm payload rest
              (push_to_connect r dial prefers_done sid gm.group_id
                (drop_sender gm.from_user_id us)
                payload
                gm.msg_type
                (wait_token r t).0).0
    unfolding push_each
    push_each_go gm payload sid us rest t e w = ground (arith, e, w)

    pub push_each-Uses :
        (gm : GroupMessage) (payload : Bytes) (m : Dict (List ℕ)) (t : Task r)
        → Uses t (push_each r dial prefers_done gm payload m t)
    unfolding to_come
    push_each-Uses gm payload [] t = unfold push_each in succeeds-Uses tt t t (omega arith) refl
    push_each-Uses gm payload ((sid, us) ∷ rest) t =
        let final = drop_sender gm.from_user_id us in
        let waited = wait_token-Waits t in
        let t' = (wait_token r t).0 in
        let called =
          (push_to_connect r dial prefers_done sid gm.group_id final payload gm.msg_type t').0 in
        let call =
          push_to_connect-Frames r dial prefers_done sid gm.group_id final payload gm.msg_type t' in
        elim (Bool-cases (is_empty final)) [
          | inl e ↦
              rw (push_each_skip gm payload sid us rest t e) (push_each-Uses gm payload rest t)
          | inr e ↦ elim (Bool-cases (wait_token r t).1) [
            | inr w ↦ rw (push_each_expired gm payload sid us rest t e w) (
                fails-Uses expired t t' (ground (arith, waited.world, waited.rpc, waited.failed w))
                  waited.marked)
            | inl w ↦ rw (push_each_go gm payload sid us rest t e w) (
                later-Uses
                  (ground (
                    arith, waited.world, waited.rpc, waited.waits, call.world, call.waits, call.rpc,
                  ))
                  (call.marked ∙ waited.marked) (push_each-Uses gm payload rest called))
          ]
        ]

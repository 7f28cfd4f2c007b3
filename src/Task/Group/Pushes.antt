-- ===== src/Task/Group/Pushes.antt =====
-- The loop over the routing map, where the network works: each node is called once, for its users.
use likegochat.Prelude.{
  ℕ, ◌≡◌, ◌∙◌, ap, refl, Bool, true, false, List, [], ◌∷◌, arith, is_empty, Bool-cases, inl, inr,
  if◌then◌else◌,
}
use likegochat.Prelude.Bytes.{Bytes, bytes_eq, bytes_eq_iff}
use likegochat.Prelude.Dicts.{Dict, IsDict, find, has_key}
use likegochat.Redis.{Redis, ok}
use likegochat.Connect.Client.{Node}
use likegochat.Connect.GrpcServer.{push_msg_to_users}
use likegochat.Logic.ChatServer.{GroupMessage}
use likegochat.Task.Consumer.{Task, push_to_connect}
use likegochat.Task.Consumer.Calls.{IsUp, push_to_connect-Frames}
use likegochat.Task.Consumer.Nodes.{
  push_to_connect-IsUp, push_to_connect-own, IsCalm, no_more, wait_token_calm,
}
use likegochat.Task.Routing.{targets}
use likegochat.Task.Group.{drop_sender, push_each}
use likegochat.Task.Group.Attempts.{push_each_skip, push_each_go}

targets_other :
    (k sid : Bytes) (us : List ℕ) (rest : Dict (List ℕ))
    → bytes_eq k sid ≡ false
    → targets sid ((k, us) ∷ rest) ≡ targets sid rest
unfolding targets find
targets_other k sid us rest e = ground (arith, e)

targets_own :
    (k sid : Bytes) (us : List ℕ) (rest : Dict (List ℕ))
    → bytes_eq k sid ≡ true
    → targets sid ((k, us) ∷ rest) ≡ us
unfolding targets find
targets_own k sid us rest e = ground (arith, e)

module _ (r : Redis) (dial : Bytes → Bool) (prefers_done : ℕ → Bool) where
  -- The node after a call with the payload for some users, if there are any.
  abbrev pub called : GroupMessage → Bytes → List ℕ → Node → Node
  called gm payload users n =
      if is_empty users
      then n
      else (push_msg_to_users prefers_done
          (record {
            group_id = gm.group_id;
            payload = payload;
            user_ids = users;
            msg_type = gm.msg_type;
          })
          n).0

  -- The node after a call for some users, from whom the sender is dropped, if any are left.
  abbrev pub pushed : GroupMessage → Bytes → List ℕ → Node → Node
  pushed gm payload us n = called gm payload (drop_sender gm.from_user_id us) n

  pushed_none :
      (gm : GroupMessage) (payload : Bytes) (us : List ℕ) (n : Node)
      → is_empty (drop_sender gm.from_user_id us) ≡ true
      → pushed gm payload us n ≡ n
  pushed_none gm payload us n e = ground (arith, e)

  pushed_some :
      (gm : GroupMessage) (payload : Bytes) (us : List ℕ) (n : Node)
      → is_empty (drop_sender gm.from_user_id us) ≡ false
      → pushed gm payload us n
        ≡ (push_msg_to_users prefers_done
            (record {
              group_id = gm.group_id;
              payload = payload;
              user_ids = drop_sender gm.from_user_id us;
              msg_type = gm.msg_type;
            })
            n).0
  pushed_some gm payload us n e = ground (arith, e)

  -- The loop, at a node that is not skipped.
  push_each_next :
      (gm : GroupMessage) (payload sid : Bytes) (us : List ℕ) (rest : Dict (List ℕ)) (t : Task r)
      → IsCalm r dial t
      → is_empty (drop_sender gm.from_user_id us) ≡ false
      → push_each r dial prefers_done gm payload ((sid, us) ∷ rest) t
        ≡ push_each r dial prefers_done gm payload rest
            (push_to_connect r dial prefers_done sid gm.group_id
              (drop_sender gm.from_user_id us)
              payload
              gm.msg_type
              t).0
  push_each_next gm payload sid us rest t c e =
      let final = drop_sender gm.from_user_id us in
      let waited = wait_token_calm r dial t c.1 in
      push_each_go r dial prefers_done gm payload sid us rest t e (ap (λ p. p.1) waited)
      ∙ ap
          (λ p.
            push_each r dial prefers_done gm payload rest
              (push_to_connect r dial prefers_done sid gm.group_id final payload gm.msg_type p.0).0)
          waited

  called-IsCalm :
      (sid : Bytes) (g : ℕ) (us : List ℕ) (payload : Bytes) (msg_type : ℕ) (t : Task r)
      → IsCalm r dial t
      → IsCalm r dial (push_to_connect r dial prefers_done sid g us payload msg_type t).0
  called-IsCalm sid g us payload msg_type t c =
      let call = push_to_connect-Frames r dial prefers_done sid g us payload msg_type t in
      (no_more _ t.rpc call.rpc c.0, call.waits ∙ c.1)

  -- A node that is not in the map is left as it is.
  push_each-spares :
      (gm : GroupMessage) (payload sid : Bytes) (n : Node) (m : Dict (List ℕ)) (t : Task r)
      → IsCalm r dial t
      → has_key sid m ≡ false
      → IsUp r dial sid n t
      → IsUp r dial sid n (push_each r dial prefers_done gm payload m t).0
  push_each-spares gm payload sid n [] t c h up = unfold push_each in up
  push_each-spares gm payload sid n ((k, us) ∷ rest) t c h up =
      let final = drop_sender gm.from_user_id us in
      let t' = (push_to_connect r dial prefers_done k gm.group_id final payload gm.msg_type t).0 in
      elim (Bool-cases (is_empty final)) [
        | inl e ↦
            rw (push_each_skip r dial prefers_done gm payload k us rest t e)
              (push_each-spares gm payload sid n rest t c (ground (arith, h)) up)
        | inr e ↦ rw (push_each_next gm payload k us rest t c e) (
            push_each-spares gm payload sid n rest t'
              (called-IsCalm k gm.group_id final payload gm.msg_type t c) (ground (arith, h))
              (push_to_connect-IsUp r dial prefers_done k gm.group_id final payload gm.msg_type sid
                n t (ground (arith, h)) up))
      ]

  -- A node that is up ends as one call for its users in the map leaves it.
  pub push_each-pushed :
      (gm : GroupMessage) (payload sid : Bytes) (n : Node) (m : Dict (List ℕ)) (t : Task r)
      → IsCalm r dial t
      → IsDict m
      → IsUp r dial sid n t
      → IsUp r dial sid
          (pushed gm payload (targets sid m) n)
          (push_each r dial prefers_done gm payload m t).0
  unfolding targets find
  push_each-pushed gm payload sid n [] t c d up = unfold push_each in up
  push_each-pushed gm payload sid n ((k, us) ∷ rest) t c d up =
      let final = drop_sender gm.from_user_id us in
      let t' = (push_to_connect r dial prefers_done k gm.group_id final payload gm.msg_type t).0 in
      let calm = called-IsCalm k gm.group_id final payload gm.msg_type t c in
      elim (Bool-cases (bytes_eq k sid)) [
        | inr ne ↦ rw (targets_other k sid us rest ne) (elim (Bool-cases (is_empty final)) [
          | inl e ↦
              rw (push_each_skip r dial prefers_done gm payload k us rest t e)
                (push_each-pushed gm payload sid n rest t c d.1 up)
          | inr e ↦ rw (push_each_next gm payload k us rest t c e) (
              push_each-pushed gm payload sid n rest t' calm d.1 (
                push_to_connect-IsUp r dial prefers_done k gm.group_id final payload gm.msg_type sid
                  n t ne up))
        ])
        | inl s ↦
            let same : k ≡ sid = (bytes_eq_iff k sid).0 s in
            let absent : has_key sid rest ≡ false = rw (← same) d.0 in
            rw (targets_own k sid us rest s) (elim (Bool-cases (is_empty final)) [
              | inl e ↦
                  rw
                    (
                      push_each_skip r dial prefers_done gm payload k us rest t e,
                      pushed_none gm payload us n e,
                    )
                    (push_each-spares gm payload sid n rest t c absent up)
              | inr e ↦
                  rw (push_each_next gm payload k us rest t c e, pushed_some gm payload us n e)
                    (push_each-spares gm payload sid _ rest t' calm absent (
                      rw same (
                        push_to_connect-own r dial prefers_done gm.group_id final payload
                          gm.msg_type sid n t up c.0)))
            ])
      ]

  pub push_each-ok :
      (gm : GroupMessage) (payload : Bytes) (m : Dict (List ℕ)) (t : Task r)
      → IsCalm r dial t
      → (push_each r dial prefers_done gm payload m t).1 ≡ ok tt
  push_each-ok gm payload [] t c = unfold push_each in refl
  push_each-ok gm payload ((k, us) ∷ rest) t c =
      let final = drop_sender gm.from_user_id us in
      let t' = (push_to_connect r dial prefers_done k gm.group_id final payload gm.msg_type t).0 in
      elim (Bool-cases (is_empty final)) [
        | inl e ↦
            rw (push_each_skip r dial prefers_done gm payload k us rest t e)
              (push_each-ok gm payload rest t c)
        | inr e ↦ rw (push_each_next gm payload k us rest t c e) (
            push_each-ok gm payload rest t'
              (called-IsCalm k gm.group_id final payload gm.msg_type t c))
      ]

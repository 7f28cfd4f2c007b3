-- ===== src/Task/Group.antt =====
-- `GroupChatHandler` of internal/task/consumer.go: the messages to groups, which are handled again until
-- that succeeds. The goroutines of a message, each for another node, run one after the other.
pub mod Attempts
pub mod Refreshes
pub mod Ends
pub mod Pushes
pub mod Delivery
use likegochat.Prelude.{
  ℕ, suc, ◌+◌, ◌==◌, Bool, true, false, List, [], ◌∷◌, Option, none, some, is_empty, if◌then◌else◌,
  zero,
}
use likegochat.Prelude.Bytes.{Bytes}
use likegochat.Prelude.Dicts.{Dict}
use likegochat.Redis.{Redis, Outcome, delivered, refused, reply_lost, World, Result, ok, err}
use likegochat.Logic.Error.{Error}
use likegochat.Logic.ChatServer.{GroupMessage}
use likegochat.Logic.GroupCache.{refresh_group_members_cache}
use likegochat.Task.Consumer.{
  Task, ConsumerMessage, ConsumeError, mark_message, push_to_connect, rpc_failed, expired,
  unmarshal_failed, cache_missed, no_members, no_online_users, wait_token,
}
use likegochat.Task.Routing.{get_online_routing_map, load_group_online_member_ids}

abbrev pub drop_sender : ℕ → List ℕ → List ℕ
drop_sender from_user_id [] = []
drop_sender from_user_id (u ∷ us) =
    let rest = drop_sender from_user_id us in if u == from_user_id then rest else u ∷ rest

-- What becomes of a message: it is handled or dropped, and marked; the session ends before; or the
-- fuel is too small.
pub data Fate : Type 0 where
  handled stopped unfinished : Fate

abbrev pub is_unmarshal_failed : ConsumeError → Bool
is_unmarshal_failed unmarshal_failed = true
is_unmarshal_failed e = false

module _ (r : Redis) (dial : Bytes → Bool) (prefers_done : ℕ → Bool) where
  -- The loop over the nodes, which calls each once.
  pub push_each :
      GroupMessage → Bytes → Dict (List ℕ) → Task r → Task r × Result ConsumeError (Unit {0})
  unfolding wait_token
  push_each gm payload [] t = (t, ok tt)
  push_each gm payload ((server_id, us) ∷ rest) t =
      let final = drop_sender gm.from_user_id us in
      elim (is_empty final) [
        | true ↦ push_each gm payload rest t
        | false ↦
            let waited = wait_token r t in
            elim waited.1 [
              | false ↦ (waited.0, err expired)
              | true ↦
                  push_each gm payload rest
                    (push_to_connect r dial prefers_done server_id gm.group_id final payload
                      gm.msg_type waited.0).0
            ]
      ]

  -- The push to the members that a refresh has returned.
  pub push_mapped : GroupMessage → Bytes → List ℕ → Task r → Task r × Result ConsumeError (Unit {0})
  unfolding push_each
  push_mapped gm payload members t =
      let (w, got) = get_online_routing_map r members t.world in
      let t' : Task r = record t { world = w } in
      elim got [ err e ↦ (t', err e) | ok m ↦ push_each gm payload m t' ]

  module _ (group_members : ℕ → Option (List ℕ)) where
    -- The call of the logic server, on the outcome of the round trip to it.
    pub refresh_reached : Outcome → ℕ → Task r → Task r × Option (List ℕ)
    refresh_reached refused group_id t = (t, none)
    refresh_reached delivered group_id t =
        let (w, res) = refresh_group_members_cache r group_members group_id t.world in
        (record t { world = w }, elim res [ err e ↦ none | ok members ↦ some members ])
    refresh_reached reply_lost group_id t = (
      record t { world = (refresh_group_members_cache r group_members group_id t.world).0 },
      none,
    )

    pub refresh_call : ℕ → Task r → Task r × Option (List ℕ)
    unfolding refresh_reached
    refresh_call group_id t = elim t.rpc [
      | [] ↦ refresh_reached delivered group_id t
      | o ∷ rest ↦ refresh_reached o group_id (record t { rpc = rest })
    ]

    -- The way of a cache that has missed.
    pub push_refreshed : GroupMessage → Bytes → Task r → Task r × Result ConsumeError (Unit {0})
    unfolding refresh_call push_mapped
    push_refreshed gm payload t =
        let (t', reply) = refresh_call gm.group_id t in
        elim reply [
          | none ↦ (t', err rpc_failed)
          | some members ↦
              if is_empty members then (t', ok tt) else push_mapped gm payload members t'
        ]

    pub push_loaded :
        GroupMessage
        → Bytes
        → Result ConsumeError (Dict (List ℕ))
        → Task r
        → Task r × Result ConsumeError (Unit {0})
    unfolding push_refreshed push_each
    push_loaded gm payload (ok m) t = push_each gm payload m t
    push_loaded gm payload (err no_members) t = (t, ok tt)
    push_loaded gm payload (err no_online_users) t = (t, ok tt)
    push_loaded gm payload (err cache_missed) t = push_refreshed gm payload t
    push_loaded gm payload (err e) t = (t, err e)

    pub handle_small_group_message :
        GroupMessage → Bytes → Task r → Task r × Result ConsumeError (Unit {0})
    unfolding push_loaded
    handle_small_group_message gm payload t =
        let (w, got) = load_group_online_member_ids r gm.group_id t.world in
        push_loaded gm payload got (record t { world = w })

    module _ (unmarshal : Bytes → Option GroupMessage) where
      pub handle_group_message : ConsumerMessage → Task r → Task r × Result ConsumeError (Unit {0})
      unfolding handle_small_group_message
      handle_group_message m t = elim (unmarshal m.value) [
        | none ↦ (t, err unmarshal_failed)
        | some gm ↦ handle_small_group_message gm m.value t
      ]

      -- The loop of `ConsumeClaim` for one message; `ends` says whether the session ends in the pause
      -- after the n-th attempt, and the first argument is fuel.
      pub consume_group : ℕ → (ℕ → Bool) → ℕ → ConsumerMessage → Task r → Task r × Fate
      unfolding handle_group_message
      consume_group zero ends n m t = (t, unfinished)
      consume_group (suc fuel) ends n m t =
          let tried = handle_group_message m t in
          elim tried.1 [
            | ok done ↦ (mark_message r m tried.0, handled)
            | err e ↦ elim (is_unmarshal_failed e) [
              | true ↦ (mark_message r m tried.0, handled)
              | false ↦ elim (ends n) [
                | true ↦ (tried.0, stopped)
                | false ↦ consume_group fuel ends (n + 1) m tried.0
              ]
            ]
          ]

      -- `ConsumeClaim` on the messages of a claim, and whether the session has ended meanwhile.
      pub consume_group_claim : ℕ → (ℕ → Bool) → List ConsumerMessage → Task r → Task r × Fate
      unfolding consume_group
      consume_group_claim fuel ends [] t = (t, handled)
      consume_group_claim fuel ends (m ∷ ms) t =
          let (t', fate) = consume_group fuel ends 0 m t in
          elim fate [
            | handled ↦ consume_group_claim fuel ends ms t'
            | stopped ↦ (t', stopped)
            | unfinished ↦ (t', unfinished)
          ]

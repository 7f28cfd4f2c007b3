-- ===== src/Task/Group/Delivery.antt =====
-- Whom a group message reaches, where the network works.
use likegochat.Prelude.{ℕ, ◌≡◌, ◌<◌, ◌^◌, ◌==◌, ◌&&◌, not, Bool, List, Option, some, mem}
use likegochat.Prelude.Bytes.{Bytes}
use likegochat.Redis.{Redis, Result, ok}
use likegochat.Connect.Client.{Node}
use likegochat.Connect.Registry.Routes.{route}
use likegochat.Logic.ChatServer.{GroupMessage}
use likegochat.Task.Consumer.{Task, ConsumeError}
use likegochat.Task.Consumer.Calls.{IsUp}
use likegochat.Task.Routing.Targets.{names}
use likegochat.Task.Group.Pushes.{called}

module _ (r : Redis) (dial : Bytes → Bool) (prefers_done : ℕ → Bool) (rows : ℕ → List ℕ) where
  abbrev members : ℕ → Option (List ℕ)
  members i = some (rows i)

  -- The message is handled, and the node at `server_id` has got one call for `users`, which are the
  -- members of the group who are routed to it and are not the sender.
  pub record Served (gm : GroupMessage) (payload server_id : Bytes) (n : Node) (s : r.State)
      (p : Task r × Result ConsumeError (Unit {0})) : Type 0 where
    pub done : p.1 ≡ ok tt
    pub users : List ℕ
    pub exact :
        (u : ℕ)
        → u < 2 ^ 63
        → mem u users ≡ (
            mem u (rows gm.group_id)
            && (names server_id (route r u s) && not (u == gm.from_user_id)))
    pub there : IsUp r dial server_id (called r dial prefers_done gm payload users n) p.0

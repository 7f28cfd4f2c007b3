-- ===== src/Logic/GroupServer/Tests.antt =====
-- A concrete group.
use likegochat.Prelude.{
  ℕ, ◌+◌, ◌≡◌, ◌==◌, true, false, ◌&&◌, not, List, [], ◌∷◌, ◌++◌, refl, arith, if◌then◌else◌, mem,
  length,
}
use likegochat.Redis.{reply_lost, delivered, ok}
use likegochat.Redis.Memory.{memory, empty_store}
use likegochat.Logic.GroupCache.Coherence.{IsCoherent}
use likegochat.Logic.GroupServer.{GroupTables, GroupServer, add_group, length}
use likegochat.Logic.GroupServer.Counts.{add_group-AreCounted}
use likegochat.Logic.GroupServer.Cache.{add_group-IsCoherent}

-- The users and the count of each group, and the id of the next one.
record Store : Type 0 where
  users : ℕ → List ℕ
  count : ℕ → ℕ
  next : ℕ

mem-last : (u : ℕ) (us : List ℕ) → mem u (us ++ u ∷ []) ≡ true
mem-last u [] = ground arith
mem-last u (x ∷ us) = ground (arith, mem-last u us)

abbrev add_user : ℕ → ℕ → Store → Store
add_user g u s = record s {
  users = λ j. if (g == j) && not (mem u (s.users g)) then s.users j ++ u ∷ [] else s.users j;
}

listed_added : (g u : ℕ) (s : Store) → mem u ((add_user g u s).users g) ≡ true
listed_added g u s = ground (arith, mem-last u (s.users g))

unlisted_fresh :
    (u : ℕ) (s : Store) → mem u (if s.next == s.next then [] else s.users s.next) ≡ false
unlisted_fresh u s = ground arith

abbrev lists : GroupTables
lists = record {
  State = Store;
  rows = λ g s. s.users g;
  has_row = λ g u s. mem u (s.users g);
  active = λ g s. true;
  member_count = λ g s. s.count g;
  insert_member = add_user;
  increase = λ g s. record s { count = λ j. if g == j then s.count j + 1 else s.count j };
  create_group = λ name owner s. record {
    users = λ j. if s.next == j then [] else s.users j;
    count = λ j. if s.next == j then 1 else s.count j;
    next = s.next + 1;
  };
  next_id = λ s. s.next;
  inserted = λ g u j s. (refl, refl);
  listed = listed_added;
  increased = λ g j s. (refl, refl);
  counted = λ g u j s. refl;
  created = λ name owner j s. (refl, refl);
  unlisted = λ name owner u s. unlisted_fresh u s;
}

-- No group has a member yet.
abbrev nobody : Store
nobody = record { users = λ g. []; count = λ g. 0; next = 1 }

abbrev server : GroupServer memory lists
server = record {
  world = record { db = empty_store; net = [] };
  db = nobody;
  sql = [];
  pending = [];
}

adds : (add_group memory lists 3 7 server).1 ≡ ok true
unfolding add_group
adds = refl

nobody-IsCoherent : IsCoherent memory (λ j. nobody.users j) empty_store
nobody-IsCoherent = record {
  cached = λ g u v hg hu h. absurd (ground (arith, h));
  set_only = λ g. refl;
}

add_group-IsCoherent_example :
    (lists.has_row 3 7 (add_group memory lists 3 7 server).0.db ≡ true)
    × IsCoherent memory
        (λ j. lists.rows j (add_group memory lists 3 7 server).0.db)
        (add_group memory lists 3 7 server).0.world.db
add_group-IsCoherent_example =
    add_group-IsCoherent memory lists 3 7 server true (omega arith) refl nobody-IsCoherent adds

-- The answer of the commit is lost.
abbrev unlucky : GroupServer memory lists
unlucky = record server { sql = delivered ∷ delivered ∷ delivered ∷ reply_lost ∷ [] }

add_group-AreCounted_example :
    lists.member_count 3 (add_group memory lists 3 7 unlucky).0.db
    ≡ length (lists.rows 3 (add_group memory lists 3 7 unlucky).0.db)
add_group-AreCounted_example = add_group-AreCounted memory lists 3 7 unlucky (λ j. refl) 3

-- ===== src/Connect/Client/Sections/Tests.antt =====
-- User 7 connects twice; before the first connection is closed, user 8 connects and is removed.
use likegochat.Prelude.{[]}
use likegochat.Connect.Client.{new_node, new_client, nil_client}
use likegochat.Connect.Client.Sections.{
  Moment, Run, begun, continued, added, removed, add_locked, remove_locked,
}
use likegochat.Connect.Client.Sections.Held.{Held, Run-Held}

abbrev adds_seven : Moment → Moment
adds_seven s = add_locked 7 s.node.next (record s { node = new_client 7 s.node })

abbrev adds_eight : Moment → Moment
adds_eight s = add_locked 8 s.node.next (record s { node = new_client 8 s.node })

abbrev start : Moment
start = record { node = new_node 4; closing = [] }

abbrev taken_twice : Moment
taken_twice = (remove_locked 8 nil_client (adds_eight (adds_seven (adds_seven start)))).0

taken_twice-Run : Run taken_twice
taken_twice-Run =
    continued (continued (continued (continued (begun 4) (added 7)) (added 7)) (added 8))
      (removed 8 nil_client)

Run-Held_example : Held taken_twice
Run-Held_example = Run-Held taken_twice-Run

-- ===== src/Connect/Client/WritePump/Order.antt =====
-- The payloads on the wire against those that the channel has accepted.
use mathlib.Core.List.{append-nil, append_assoc}
use likegochat.Prelude.{
  ℕ, ◌≡◌, ◌≤◌, Bool, true, false, List, List-cases, [], ◌∷◌, ◌++◌, update, if◌then◌else◌, length,
  inl, inr, arith, refl, sym, ◌∙◌, ap,
}
use likegochat.Connect.Chan.{Payload, has_room, offer_effect}
use likegochat.Connect.Client.{Node, close_conn}
use likegochat.Connect.Client.WritePump.{
  Pump, Event, wakes, offered, closes, Wake, done, message, tick, Fate, no_writer, not_flushed,
  flushed, happens, write_pump, write_round, write_message, stop_pump, start_pump,
}

-- The payload of an event, if the channel accepts it.
abbrev pub taken : ℕ → Event → Pump → List Payload
taken p (wakes w) s = []
taken p (offered m) s = if has_room s.node.chans (s.node.heap p).send then m ∷ [] else []
taken p closes s = []

-- The payloads that the channel accepts, in their order.
unfoldable pub accepted : ℕ → List Event → Pump → List Payload
accepted p [] s = []
accepted p (e ∷ es) s = taken p e s ++ accepted p es (happens p e s)

-- Payloads on the wire, a payload that failed, and those in the channel `c`.
abbrev flow : ℕ → Pump → List Payload
flow c s = s.written ++ (s.broken ++ s.node.chans c)

record Sound (p c : ℕ) (s : Pump) : Type 0 where
  send : (s.node.heap p).send ≡ c
  unbroken : s.running ≡ true → s.broken ≡ []
  single : length s.broken ≤ 1

-- What holds of both branches holds of a test.
if_holds :
    {A : Type 0} (P : A → Type 0) (b : Bool) (x y : A)
    → (b ≡ true → P x)
    → (b ≡ false → P y)
    → P (if b then x else y)
if_holds P true x y h k = h refl
if_holds P false x y h k = k refl

write_message-flow :
    (p c : ℕ) (f : Fate) (m : Payload) (rest : List Payload) (s : Pump)
    → Sound p c s
    → s.broken ≡ []
    → s.node.chans c ≡ rest
    → (flow c (write_message p f m s) ≡ s.written ++ m ∷ rest) × Sound p c (write_message p f m s)
unfolding write_message stop_pump
write_message-flow p c no_writer m rest s v b q = (
  ground (arith, b, q),
  record {
    send = ground (arith, v.send);
    unbroken = λ h. absurd (ground (arith, h));
    single = ground (arith, b);
  },
)
write_message-flow p c not_flushed m rest s v b q = (
  ground (arith, b, q),
  record {
    send = ground (arith, v.send);
    unbroken = λ h. absurd (ground (arith, h));
    single = ground (arith, b);
  },
)
write_message-flow p c flushed m rest s v b q = (
  ground (arith, b, q, append_assoc s.written (m ∷ []) rest),
  record { send = v.send; unbroken = λ h. b; single = v.single },
)

stop_pump-flow :
    (p c : ℕ) (s : Pump)
    → Sound p c s
    → (flow c (stop_pump p s) ≡ flow c s) × Sound p c (stop_pump p s)
unfolding stop_pump
stop_pump-flow p c s v = (
  refl,
  record {
    send = ground (arith, v.send);
    unbroken = λ h. absurd (ground (arith, h));
    single = v.single;
  },
)

write_round-flow :
    (p c : ℕ) (w : Wake) (s : Pump)
    → s.running ≡ true
    → Sound p c s
    → (flow c (write_round p w s) ≡ flow c s) × Sound p c (write_round p w s)
unfolding write_round
write_round-flow p c done s on v =
    if_holds (λ t. (flow c t ≡ flow c s) × Sound p c t) (s.node.heap p).once (stop_pump p s) s
      (λ _. stop_pump-flow p c s v) (λ _. (refl, v))
write_round-flow p c (message f) s on v = elim (List-cases (s.node.chans c)) [
  | inl e ↦ rw (write_round, v.send, e) (ap (λ q. s.written ++ (s.broken ++ q)) e, v)
  | inr ((m, rest), e) ↦
      let s' : Pump = record s {
        node = record s.node { chans = update s.node.chans (s.node.heap p).send rest };
      } in
      let sound : Sound p c s' = record {
        send = v.send;
        unbroken = v.unbroken;
        single = v.single;
      } in
      let b = v.unbroken on in
      let there = write_message-flow p c f m rest s' sound b (ground (arith, v.send)) in
      rw (write_round, v.send, e)
        (there.0 ∙ ap (λ q. s.written ++ (q ++ m ∷ rest)) (sym b), there.1)
]
write_round-flow p c (tick true) s on v = (refl, v)
write_round-flow p c (tick false) s on v = stop_pump-flow p c s v

happens-flow :
    (p c : ℕ) (e : Event) (s : Pump)
    → Sound p c s
    → (flow c (happens p e s) ≡ flow c s ++ taken p e s) × Sound p c (happens p e s)
unfolding happens close_conn
happens-flow p c (wakes w) s v =
    let kept = sym (append-nil (flow c s)) in
    if_holds (λ t. (flow c t ≡ flow c s ++ []) × Sound p c t) s.running (write_round p w s) s
      (λ on. let there = write_round-flow p c w s on v in (there.0 ∙ kept, there.1))
      (λ _. (kept, v))
happens-flow p c (offered m) s v = (
  ground (
    arith,
    v.send,
    (offer_effect c m s.node.chans c).0,
    append_assoc s.written s.broken (s.node.chans c),
    append_assoc s.broken (s.node.chans c) (m ∷ []),
    append_assoc s.written (s.broken ++ s.node.chans c) (m ∷ []),
    append-nil (flow c s),
  ),
  record { send = v.send; unbroken = v.unbroken; single = v.single },
)
happens-flow p c closes s v = (
  ground (arith, append-nil (flow c s)),
  record { send = ground (arith, v.send); unbroken = v.unbroken; single = v.single },
)

write_pump-flow :
    (p c : ℕ) (es : List Event) (s : Pump)
    → Sound p c s
    → (flow c (write_pump p es s) ≡ flow c s ++ accepted p es s) × Sound p c (write_pump p es s)
unfolding write_pump accepted
write_pump-flow p c [] s v = (sym (append-nil (flow c s)), v)
write_pump-flow p c (e ∷ es) s v =
    let first = happens-flow p c e s v in
    let rest = write_pump-flow p c es (happens p e s) first.1 in
    (
      rest.0
          ∙ ap (λ f. f ++ accepted p es (happens p e s)) first.0
          ∙ append_assoc (flow c s) (taken p e s) (accepted p es (happens p e s)),
      rest.1,
    )

-- Whatever happens at a client from the start of its pump, in whatever order: the payloads on the wire,
-- then at most one whose writing has failed, and then those left in the channel, are the payloads that
-- the channel held and those that it has accepted since, in that order; and while the pump runs no
-- payload has failed.
pub write_pump_lem :
    (p : ℕ) (es : List Event) (n : Node)
    → ((write_pump p es (start_pump n)).written
          ++ ((write_pump p es (start_pump n)).broken
              ++ (write_pump p es (start_pump n)).node.chans (n.heap p).send)
        ≡ n.chans (n.heap p).send ++ accepted p es (start_pump n))
      × (length (write_pump p es (start_pump n)).broken ≤ 1)
      × ((write_pump p es (start_pump n)).running ≡ true
          → (write_pump p es (start_pump n)).broken ≡ [])
write_pump_lem p es n =
    let starts : Sound p (n.heap p).send (start_pump n) = record {
      send = refl;
      unbroken = λ h. refl;
      single = omega arith;
    } in
    let runs = write_pump-flow p (n.heap p).send es (start_pump n) starts in
    (runs.0, runs.1.single, runs.1.unbroken)

-- ===== src/Connect/Chan.antt =====
-- The buffered channels of outgoing payloads, `make(chan []byte, 256)` in internal/connect/
-- ws_handler.go, and the non-blocking send that internal/connect/room.go makes on them.
use likegochat.Prelude.{
  ℕ, ◌≤◌, ◌≡◌, Bool, true, false, not, ◌&&◌, List, [], ◌∷◌, ◌++◌, arith, length, length-append,
  update, ltb, ◌==◌, if◌then◌else◌,
}

abbrev pub Payload : Type 0
Payload = List ℕ

-- A channel is the address of its buffer; the address 0 is the nil channel.
abbrev pub nil_chan : ℕ
nil_chan = 0

abbrev pub send_buffer : ℕ
send_buffer = 256

-- The buffer of every channel, oldest payload first.
abbrev pub Chans : Type 0
Chans = ℕ → List Payload

abbrev pub has_room : Chans → ℕ → Bool
has_room cs c = not (c == nil_chan) && ltb (length (cs c)) send_buffer

-- `select { case ch <- payload: …; default: … }`: the send is made if the buffer has room, and a send
-- on a nil channel is never ready.
unfoldable pub offer : ℕ → Payload → Chans → Chans × Bool
offer c p cs = if has_room cs c then (update cs c (cs c ++ p ∷ []), true) else (cs, false)

-- No buffer holds more than its capacity.
abbrev pub IsBounded : Chans → Type 0
IsBounded cs = (c : ℕ) → length (cs c) ≤ send_buffer

pub offer-IsBounded : (c : ℕ) (p : Payload) (cs : Chans) → IsBounded cs → IsBounded (offer c p cs).0
unfolding offer
offer-IsBounded c p cs h d = ground (arith, h d, length-append (cs c) (p ∷ []))

-- What an offer does to each channel.
pub offer_effect :
    (c : ℕ) (p : Payload) (cs : Chans) (d : ℕ)
    → ((offer c p cs).0 d ≡ (if (c == d) && has_room cs c then cs d ++ p ∷ [] else cs d))
      × ((offer c p cs).1 ≡ has_room cs c)
unfolding offer
offer_effect c p cs d = ground arith

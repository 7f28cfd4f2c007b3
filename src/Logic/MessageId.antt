-- ===== src/Logic/MessageId.antt =====
-- `nextMessageID` of internal/logic/chatserver.go. An int64 or uint64 is its bit pattern.
use Prim.Native.Nat.{bit_and, bit_or}
use likegochat.Prelude.{
  ℕ, zero, suc, ◌+◌, ◌-◌, ◌*◌, ◌/◌, ◌%◌, ◌^◌, ◌<◌, ◌≡◌, ◌≢◌, List, [], ◌∷◌, arith, length, get_or,
  refl, ◌∙◌,
}
use likegochat.Prelude.Bits.{bit_and_mask20, bit_or_shift20}

abbrev seq_mask : ℕ
seq_mask = 1048575

-- From the counter `localMsgSeq` and the clock: the new counter and the message id.
pub next_message_id : ℕ → ℕ → ℕ × ℕ
next_message_id local_msg_seq now_milli =
    let count = (local_msg_seq + 1) % 2 ^ 64 in
    (count, bit_or (now_milli * 2 ^ 20 % 2 ^ 64) (bit_and count seq_mask))

pub next_message_id_lem :
    (c now : ℕ) → (next_message_id c now).1 ≡ (now % 2 ^ 44) * 2 ^ 20 + (c + 1) % 2 ^ 20
unfolding next_message_id
next_message_id_lem c now =
    let seq = bit_and ((c + 1) % 2 ^ 64) seq_mask in
    let shifted : now * 2 ^ 20 % 2 ^ 64 ≡ (now % 2 ^ 44) * 1048576 = omega arith in
    rw shifted (
      omega (
        arith,
        bit_and_mask20 ((c + 1) % 2 ^ 64),
        bit_or_shift20 (now % 2 ^ 44) seq (omega (arith, bit_and_mask20 ((c + 1) % 2 ^ 64))),
      ))

-- The ids of a run of calls, with the clock's value at each.
pub issue : ℕ → List ℕ → List ℕ
issue c [] = []
issue c (now ∷ nows) = (next_message_id c now).1 ∷ issue (next_message_id c now).0 nows

pub next_counter : (c now : ℕ) → (next_message_id c now).0 ≡ (c + 1) % 2 ^ 64
unfolding next_message_id
next_counter c now = refl

issue_low :
    (c : ℕ) (nows : List ℕ) (i : ℕ)
    → i < length nows
    → get_or (issue c nows) i 0 % 2 ^ 20 ≡ (c + i + 1) % 2 ^ 20
unfolding issue
issue_low c [] i h = elim h [ ]
issue_low c (now ∷ nows) zero h = omega (arith, next_message_id_lem c now)
issue_low c (now ∷ nows) (suc i) h =
    let next = (next_message_id c now).0 in
    let ih : get_or (issue next nows) i 0 % 2 ^ 20 ≡ (next + i + 1) % 2 ^ 20 =
      issue_low next nows i (omega arith) in
    ih ∙ omega (arith, next_counter c now)

-- Two ids of a run differ if the later is fewer than 2^20 calls after the earlier, whatever the clock
-- says: it may stand still or go back, and the counter may wrap.
pub issue_distinct :
    (c : ℕ) (nows : List ℕ) (i j : ℕ)
    → i < j
    → j < length nows
    → j - i < 2 ^ 20
    → get_or (issue c nows) i 0 ≢ get_or (issue c nows) j 0
issue_distinct c nows i j lt hj near =
    λ same. absurd (omega (arith, same, issue_low c nows i (omega arith), issue_low c nows j hj))

-- Until the year 2248 an id is positive and names its millisecond, so a later millisecond gives a
-- greater id.
pub next_message_id_ordered :
    (c d now later : ℕ)
    → now < later
    → later < 2 ^ 43
    → ((next_message_id c now).1 < (next_message_id d later).1)
      × ((next_message_id d later).1 < 2 ^ 63)
      × ((next_message_id d later).1 / 2 ^ 20 ≡ later)
next_message_id_ordered c d now later lt h =
    omega (arith, next_message_id_lem c now, next_message_id_lem d later)

-- The bound on the distance is sharp: 2^20 calls apart, in one millisecond, an id comes back.
pub next_message_id_repeats :
    (c now : ℕ) → (next_message_id (c + 2 ^ 20) now).1 ≡ (next_message_id c now).1
next_message_id_repeats c now =
    omega (arith, next_message_id_lem c now, next_message_id_lem (c + 2 ^ 20) now)

-- ===== src/Server/PendingBuffer.antt =====
-- server/pending_buffer.hpp and .cpp: messages that wait for a clock. The argument `tid`, which the
-- code ignores, is left out.
use flexps.Base.{
  ℕ, ◌++◌, ◌≡◌, List, [], ◌∷◌, none, some, Dict, find, find_or, put, erase, length, find-put,
  find-erase, if◌then◌else◌, ◌==◌, arith,
}
use flexps.Message.{Message}

abbrev pub PendingBuffer : Type 0
PendingBuffer = Dict (List Message)

unfoldable pub pop : ℕ → PendingBuffer → List Message × PendingBuffer
pop clock b = elim (find clock b) [ none ↦ ([], b) | some msgs ↦ (msgs, erase clock b) ]

unfoldable pub push : ℕ → Message → PendingBuffer → PendingBuffer
push clock msg b = put clock (find_or clock [] b ++ msg ∷ []) b

-- `buffer_[progress]` leaves an empty entry behind.
unfoldable pub size : ℕ → PendingBuffer → ℕ × PendingBuffer
size progress b = (length (find_or progress [] b), put progress (find_or progress [] b) b)

-- The messages that wait for a clock.
abbrev pub waiting : ℕ → PendingBuffer → List Message
waiting clock b = find_or clock [] b

pub waiting-push :
    (c k : ℕ) (msg : Message) (b : PendingBuffer)
    → waiting c (push k msg b) ≡ (if c == k then waiting k b ++ msg ∷ [] else waiting c b)
unfolding push
waiting-push c k msg b = ground (arith, find-put c k (find_or k [] b ++ msg ∷ []) b)

pub pop-waiting : (k : ℕ) (b : PendingBuffer) → (pop k b).0 ≡ waiting k b
unfolding pop
pop-waiting k b = ground arith

pub waiting-pop :
    (c k : ℕ) (b : PendingBuffer) → waiting c (pop k b).1 ≡ (if c == k then [] else waiting c b)
unfolding pop
waiting-pop c k b = ground (arith, find-erase c k b)

-- `Size` counts what waits, and no later call sees the empty entry that it may leave.
pub size_lem :
    (c k : ℕ) (b : PendingBuffer)
    → ((size k b).0 ≡ length (waiting k b)) × (waiting c (size k b).1 ≡ waiting c b)
unfolding size
size_lem c k b = ground (arith, find-put c k (find_or k [] b) b)

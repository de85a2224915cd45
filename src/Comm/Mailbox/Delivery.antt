-- ===== src/Comm/Mailbox/Delivery.antt =====
-- Where a message goes.
use flexps.Base.{
  ℕ, ◌≡◌, [], ◌∷◌, ◌++◌, Option, some, find, find_or, put, contains, not, ◌==◌, if◌then◌else◌,
  ◌>>=◌, check, find-put, find-insert, arith, >>=-eq-some,
}
use flexps.Message.{Message, ThreadsafeQueue}
use flexps.Comm.Mailbox.{Mailbox, Queues, register_queue, deliver, Received}

-- The queue of a thread, where one is registered for it.
abbrev pub queue_of : ℕ → Mailbox → Queues → Option (ThreadsafeQueue Message)
queue_of tid m queues = find tid m.queue_map >>= λ q. some (find_or q [] queues)

-- Once a queue is registered for a thread, a message for the thread is put at its end, which every
-- thread that shares the queue sees, and no other queue changes.
pub deliver-register_queue :
    (tid queue : ℕ) (m m' : Mailbox) (msg : Message) (queues : Queues)
    → register_queue tid queue m ≡ some m'
    → msg.recver ≡ tid
    → (queues' : Queues) × (deliver msg m' queues ≡ some (Received.going m' queues'))
      × ((q : ℕ)
          → find_or q [] queues'
            ≡ (if q == queue then find_or queue [] queues ++ msg ∷ [] else find_or q [] queues))
unfolding register_queue deliver
deliver-register_queue tid queue m m' msg queues e to =
    let (u, new, e1) = >>=-eq-some (check (not (contains tid m.queue_map))) _ e in
    let there : find msg.recver m'.queue_map ≡ some queue =
      ground (arith, find-insert msg.recver tid queue m.queue_map) in
    (
      put queue (find_or queue [] queues ++ msg ∷ []) queues,
      ground arith,
      λ q. ground (arith, find-put q queue (find_or queue [] queues ++ msg ∷ []) queues),
    )

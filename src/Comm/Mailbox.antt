-- ===== src/Comm/Mailbox.antt =====
-- comm2/mailbox.hpp and .cpp: what a node's mailbox does with a message, apart from the sockets. A
-- queue is shared by all ids that are registered for it, so `queue_map` holds its address. `none` is a
-- failed CHECK. The counts stay below the number of nodes, and are natural numbers, as are the
-- barriers' numbers.
pub mod Delivery
use flexps.Base.{
  ℕ, ◌+◌, List, [], ◌∷◌, ◌++◌, map, Option, none, some, Bool, true, false, Dict, find, find_or, put,
  insert, erase, contains, ltb, not, ◌==◌, if◌then◌else◌, ◌>>=◌, ◌>>◌, check,
}
use flexps.Message.{Flag, Meta, Message, ThreadsafeQueue, Platform}
use flexps.Driver.IdMapper.{get_node_id_for_thread}

-- The fields `this_count_`, `next_count_` and `progress_`.
pub record BarrierState : Type 0 where
  pub this_count : ℕ
  pub next_count : ℕ
  pub progress : ℕ

-- `senders_` is the set of the nodes that there is a socket to.
pub record Mailbox : Type 0 where
  pub node_id : ℕ
  pub nodes : List ℕ
  pub queue_map : Dict ℕ
  pub senders : Dict (Unit {0})
  pub barrier : BarrierState

-- The queues, by their addresses.
abbrev pub Queues : Type 0
Queues = Dict (ThreadsafeQueue Message)

unfoldable pub register_queue : ℕ → ℕ → Mailbox → Option Mailbox
register_queue queue_id queue m = do
  check (not (contains queue_id m.queue_map))
  some (record m { queue_map = insert queue_id queue m.queue_map })

unfoldable pub deregister_queue : ℕ → Mailbox → Option Mailbox
deregister_queue queue_id m = do
  check (contains queue_id m.queue_map)
  some (record m { queue_map = erase queue_id m.queue_map })

-- The node that `Send` sends a message to: barrier and exit messages name a node, all others a thread.
unfoldable pub destination : Message → ℕ
destination msg = elim msg.flag [
  | Flag.barrier ↦ msg.recver
  | Flag.exit ↦ msg.recver
  | Flag.reset_worker_in_model ↦ get_node_id_for_thread msg.recver
  | Flag.clock ↦ get_node_id_for_thread msg.recver
  | Flag.add ↦ get_node_id_for_thread msg.recver
  | Flag.get ↦ get_node_id_for_thread msg.recver
]

-- The socket that `Send` writes to; `none` is the answer -1.
unfoldable pub send : Message → Mailbox → Option ℕ
unfolding destination
send msg m = if contains (destination msg) m.senders then some (destination msg) else none

-- A barrier message of the version, among `num_nodes` nodes.
unfoldable pub on_barrier : ℕ → ℕ → BarrierState → Option BarrierState
on_barrier num_nodes version b =
    if version == b.progress
    then some (record b { this_count = b.this_count + 1 })
    else if version == b.progress + 1
    then (do
      check (ltb (b.next_count + 1) num_nodes)
      some (record b { next_count = b.next_count + 1 }))
    else none

-- What a round of `Receiving` leaves: the end of the loop, or the mailbox and the queues.
pub data Received : Type 0 where
  stopped : Received
  going : Mailbox → Queues → Received

-- A message for a thread goes to the queue that is registered for the thread.
unfoldable pub deliver : Message → Mailbox → Queues → Option Received
deliver msg m queues = do
  queue ← find msg.recver m.queue_map
  some (Received.going m (put queue (find_or queue [] queues ++ msg ∷ []) queues))

-- One round of the loop of `Receiving`.
unfoldable pub receive : ℕ → Message → Mailbox → Queues → Option Received
unfolding on_barrier deliver
receive num_nodes msg m queues = elim msg.flag [
  | Flag.exit ↦ some Received.stopped
  | Flag.barrier ↦ do
    b ← on_barrier num_nodes msg.version m.barrier
    some (Received.going (record m { barrier = b }) queues)
  | Flag.reset_worker_in_model ↦ deliver msg m queues
  | Flag.clock ↦ deliver msg m queues
  | Flag.add ↦ deliver msg m queues
  | Flag.get ↦ deliver msg m queues
]

-- The message that `Barrier` sends to a node; `-1` is the greatest model id.
abbrev pub barrier_msg : Mailbox → ℕ → Message
barrier_msg m node = record {
  meta = record {
    sender = m.node_id;
    recver = node;
    model_id = 4294967295;
    flag = Flag.barrier;
    version = m.barrier.progress;
  };
  body = [];
}

-- The loop of `Barrier`.
abbrev pub barrier_msgs : Mailbox → List Message
barrier_msgs m = map (barrier_msg m) m.nodes

-- The condition that `Barrier` waits for.
abbrev pub barrier_done : ℕ → BarrierState → Bool
barrier_done num_nodes b = b.this_count == num_nodes

-- The end of `Barrier`.
abbrev pub leave_barrier : BarrierState → BarrierState
leave_barrier b = record { this_count = b.next_count; next_count = 0; progress = b.progress + 1 }

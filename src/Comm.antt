-- ===== src/Comm.antt =====
-- Messages between nodes (comm2/): the mailbox of a node, and its barrier over all nodes.
pub mod Mailbox
pub mod Barrier

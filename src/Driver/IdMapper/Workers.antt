-- ===== src/Driver/IdMapper/Workers.antt =====
-- Worker thread ids: each is free when it is given out, and tells its node.
use flexps.Base.{
  ℕ, zero, suc, ◌+◌, ◌%◌, ◌≤◌, ◌<◌, ◌≡◌, none, some, true, false, find, contains, put, erase,
  length, leb, ◌==◌, if◌then◌else◌, check, >>=-eq-some, arith, subst, ◌&&◌, find-put, find-erase,
  Bool-cases, inl, inr, Option-cases,
}
use flexps.Driver.IdMapper.{
  SimpleIdMapper, Set, thread_id, workers_of, first_free, allocate_worker_thread,
  deallocate_worker_thread, get_node_id_for_thread, max_node_id, max_threads_per_node,
  max_bg_threads_per_node,
}

-- The id is the first free one from the index `i` on, among the `n` that are tried.
abbrev pub FirstFree : Set → ℕ → ℕ → ℕ → ℕ → Type 0
FirstFree used node_id n i tid =
    (j : ℕ) × (i ≤ j)
    × (j < i + n)
    × (tid ≡ thread_id node_id j)
    × (contains tid used ≡ false)
    × ((k : ℕ) → i ≤ k → k < j → contains (thread_id node_id k) used ≡ true)

all_taken :
    (used : Set) (node_id i j : ℕ)
    → contains (thread_id node_id i) used ≡ true
    → ((k : ℕ) → i + 1 ≤ k → k < j → contains (thread_id node_id k) used ≡ true)
    → (k : ℕ) → i ≤ k
    → k < j
    → contains (thread_id node_id k) used ≡ true
all_taken used node_id i j first later k a b = elim (Bool-cases (i == k)) [
  | inl same ↦ subst (λ z. contains (thread_id node_id z) used ≡ true) (ground arith) first
  | inr other ↦ later k (ground arith) b
]

pub first_free-FirstFree :
    (used : Set) (node_id n i tid : ℕ)
    → first_free used node_id n i ≡ some tid
    → FirstFree used node_id n i tid
unfolding first_free
first_free-FirstFree used node_id zero i tid e = absurd (cc)
first_free-FirstFree used node_id (suc n) i tid e =
    elim (Bool-cases (contains (thread_id node_id i) used)) [
      | inl taken ↦
          let (j, lo, hi, ej, free, before) =
            first_free-FirstFree used node_id n (i + 1) tid (rw (taken, first_free) at e) in
          (j, omega arith, omega arith, ej, free, all_taken used node_id i j taken before)
      | inr free ↦
          (i, omega arith, omega arith, ground arith, ground arith, λ k a b. absurd (omega arith))
    ]

-- The search fails only if all the ids that it tries are taken.
pub first_free-eq-none :
    (used : Set) (node_id n i : ℕ)
    → first_free used node_id n i ≡ none
    → (k : ℕ) → i ≤ k
    → k < i + n
    → contains (thread_id node_id k) used ≡ true
unfolding first_free
first_free-eq-none used node_id zero i e k a b = absurd (omega arith)
first_free-eq-none used node_id (suc n) i e k a b =
    elim (Bool-cases (contains (thread_id node_id i) used)) [
      | inl taken ↦
          let later = first_free-eq-none used node_id n (i + 1) (rw (taken, first_free) at e) in
          all_taken used node_id i (i + suc n) taken (λ j c d. later j c (omega (arith, d))) k a b
      | inr free ↦ absurd (ground arith)
    ]

-- `GetNodeIdForThread` gives the node of each thread id of a node below `kMaxNodeId`.
pub get_node_id_for_thread-thread_id :
    (node_id i : ℕ)
    → node_id < max_node_id
    → i < max_threads_per_node
    → get_node_id_for_thread (thread_id node_id i) ≡ node_id
unfolding get_node_id_for_thread thread_id
get_node_id_for_thread-thread_id node_id i h l = omega arith

-- Thread ids of nodes below `kMaxNodeId` and of indices below `kMaxThreadsPerNode` are the same only
-- for the same node and index.
pub thread_id-injective :
    (node_id node_id' i j : ℕ)
    → node_id < max_node_id
    → node_id' < max_node_id
    → i < max_threads_per_node
    → j < max_threads_per_node
    → thread_id node_id i ≡ thread_id node_id' j
    → (node_id ≡ node_id') × (i ≡ j)
unfolding thread_id
thread_id-injective node_id node_id' i j h h' l l' e = omega arith

contains-put :
    (t u : ℕ) (used : Set) → contains t (put u tt used) ≡ (if t == u then true else contains t used)
contains-put t u used = ground (arith, find-put t u tt used)

contains-erase :
    (t u : ℕ) (used : Set) → contains t (erase u used) ≡ (if t == u then false else contains t used)
contains-erase t u used = ground (arith, find-erase t u used)

workers_of-put :
    (j node_id : ℕ) (used : Set) (m : SimpleIdMapper)
    → workers_of j (record m { node2worker = put node_id used m.node2worker })
      ≡ (if j == node_id then used else workers_of j m)
workers_of-put j node_id used m = ground (arith, find-put j node_id used m.node2worker)

-- What `AllocateWorkerThread` gives: an id that was free, that tells its node and is no server's or
-- helper's, the least such one; nothing else changes.
pub record Allocates (node_id tid : ℕ) (m m' : SimpleIdMapper) : Type 0 where
  pub on_node : get_node_id_for_thread tid ≡ node_id
  pub is_worker : max_bg_threads_per_node ≤ tid % max_threads_per_node
  pub was_free : contains tid (workers_of node_id m) ≡ false
  pub least :
      (k : ℕ)
      → max_bg_threads_per_node ≤ k
      → k < tid % max_threads_per_node
      → contains (thread_id node_id k) (workers_of node_id m) ≡ true
  pub taken :
      (j t : ℕ)
      → contains t (workers_of j m')
        ≡ (if j == node_id && t == tid then true else contains t (workers_of j m))
  pub same_servers : m'.node2server ≡ m.node2server
  pub same_helpers : m'.node2worker_helper ≡ m.node2worker_helper

thread_id-mod :
    (node_id i : ℕ)
    → node_id < max_node_id
    → i < max_threads_per_node
    → thread_id node_id i % max_threads_per_node ≡ i
unfolding thread_id
thread_id-mod node_id i h l = omega arith

-- On a node below `kMaxNodeId` a successful `AllocateWorkerThread` gives the least free worker id of
-- the node, which becomes taken; no other id and no other node changes.
pub allocate-Allocates :
    (node_id tid : ℕ) (m m' : SimpleIdMapper)
    → node_id < max_node_id
    → allocate_worker_thread node_id m ≡ some (tid, m')
    → Allocates node_id tid m m'
unfolding allocate_worker_thread
allocate-Allocates node_id tid m m' small e =
    let used = workers_of node_id m in
    let (helpers, known, e1) = >>=-eq-some (find node_id m.node2worker_helper) _ e in
    let (u, room, e2) = >>=-eq-some (check (leb (length used) 900)) _ e1 in
    let (t, free, e3) = >>=-eq-some (first_free used node_id 900 100) _ e2 in
    let (j, lo, hi, ej, unused, before) = first_free-FirstFree used node_id 900 100 t free in
    let same : t ≡ tid = ground arith in
    let et : tid ≡ thread_id node_id j = ground arith in
    let em : m'.node2worker ≡ put node_id (put tid tt used) m.node2worker = ground arith in
    let place : tid % 1000 ≡ j = rw et (thread_id-mod node_id j small (omega arith)) in
    record {
      on_node = rw et (get_node_id_for_thread-thread_id node_id j small (omega arith));
      is_worker = omega (arith, place);
      was_free = ground arith;
      least = λ k a b. before k a (omega (arith, place));
      taken = λ i x.
          ground
            (arith, find-put i node_id (put tid tt used) m.node2worker, contains-put x tid used);
      same_servers = ground arith;
      same_helpers = ground arith;
    }

-- On a node that `Init` has seen, with at most 900 threads in use, `AllocateWorkerThread` succeeds if some
-- worker id of the node is free.
pub allocate_total :
    (node_id : ℕ) (m : SimpleIdMapper) (k : ℕ)
    → contains node_id m.node2worker_helper ≡ true
    → length (workers_of node_id m) ≤ 900
    → 100 ≤ k
    → k < 1000
    → contains (thread_id node_id k) (workers_of node_id m) ≡ false
    → (tid : ℕ) × (m' : SimpleIdMapper) × (allocate_worker_thread node_id m ≡ some (tid, m'))
unfolding allocate_worker_thread
allocate_total node_id m k known room a b free =
    elim (Option-cases (first_free (workers_of node_id m) node_id 900 100)) [
      | inl full ↦
          absurd
            (ground (arith, first_free-eq-none (workers_of node_id m) node_id 900 100 full k a b))
      | inr (tid, found) ↦ (
        tid,
        record m { node2worker = put node_id (put tid tt (workers_of node_id m)) m.node2worker },
        ground arith,
      )
    ]

allocate_known :
    (node_id tid : ℕ) (m m' : SimpleIdMapper)
    → allocate_worker_thread node_id m ≡ some (tid, m')
    → contains node_id m.node2worker_helper ≡ true
unfolding allocate_worker_thread
allocate_known node_id tid m m' e = ground arith

deallocate_known :
    (node_id tid : ℕ) (m : SimpleIdMapper)
    → contains node_id m.node2worker_helper ≡ true
    → contains tid (workers_of node_id m) ≡ true
    → deallocate_worker_thread node_id tid m
      ≡ some
          (record m { node2worker = put node_id (erase tid (workers_of node_id m)) m.node2worker })
unfolding deallocate_worker_thread
deallocate_known node_id tid m known held = ground arith

-- On a node below `kMaxNodeId`, a thread that was given out can be given back, after which the same
-- worker ids are taken as before, on every node.
pub deallocate-allocate :
    (node_id tid : ℕ) (m m' : SimpleIdMapper)
    → node_id < max_node_id
    → allocate_worker_thread node_id m ≡ some (tid, m')
    → (m'' : SimpleIdMapper) × (deallocate_worker_thread node_id tid m' ≡ some m'')
      × ((j t : ℕ) → contains t (workers_of j m'') ≡ contains t (workers_of j m))
deallocate-allocate node_id tid m m' small e =
    let a = allocate-Allocates node_id tid m m' small e in
    let known = allocate_known node_id tid m m' e in
    (
      record m' { node2worker = put node_id (erase tid (workers_of node_id m')) m'.node2worker },
      deallocate_known node_id tid m' (ground (arith, a.same_helpers))
          (ground (arith, a.taken node_id tid)),
      λ j t. ground (
        arith,
        workers_of-put j node_id (erase tid (workers_of node_id m')) m',
        contains-erase t tid (workers_of node_id m'),
        a.taken j t,
        a.was_free,
      ),
    )

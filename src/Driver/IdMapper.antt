-- ===== src/Driver/IdMapper.antt =====
-- driver/simple_id_mapper.hpp and .cpp: the thread ids of each node. A `std::set<uint32_t>` is a
-- dictionary to the unit type. Of a `Node` the mapper reads the id alone.
pub mod Workers
use flexps.Base.{
  ℕ, zero, suc, ◌+◌, ◌-◌, ◌*◌, ◌/◌, ◌%◌, List, [], ◌∷◌, ◌++◌, map, Option, none, some, Bool, Dict,
  find, find_or, contains, put, erase, length, ltb, leb, if◌then◌else◌, ◌>>=◌, ◌>>◌, check, u32_mod,
}

abbrev pub max_node_id : ℕ
max_node_id = 1000

abbrev pub max_threads_per_node : ℕ
max_threads_per_node = 1000

abbrev pub max_bg_threads_per_node : ℕ
max_bg_threads_per_node = 100

abbrev pub worker_helper_thread_id : ℕ
worker_helper_thread_id = 50

-- `std::set<uint32_t>`
abbrev pub Set : Type 0
Set = Dict (Unit {0})

pub record SimpleIdMapper : Type 0 where
  pub node2server : Dict (List ℕ)
  pub node2worker_helper : Dict (List ℕ)
  pub node2worker : Dict Set

-- The `i`th thread id of a node, in uint32_t arithmetic.
unfoldable pub thread_id : ℕ → ℕ → ℕ
thread_id node_id i = (node_id * max_threads_per_node + i) % u32_mod

-- `m[k].push_back(v)`
abbrev pub push_back : ℕ → ℕ → Dict (List ℕ) → Dict (List ℕ)
push_back k v m = put k (find_or k [] m ++ v ∷ []) m

-- The inner loop of `Init`, with `n` rounds left from the index `i`.
unfoldable pub add_servers : ℕ → ℕ → ℕ → Dict (List ℕ) → Dict (List ℕ)
add_servers node_id zero i m = m
add_servers node_id (suc n) i m =
    add_servers node_id n (i + 1) (push_back node_id (thread_id node_id i) m)

-- The outer loop of `Init`, over the ids of the nodes.
unfoldable pub add_nodes : ℕ → List ℕ → SimpleIdMapper → Option SimpleIdMapper
unfolding add_servers
add_nodes num [] m = some m
add_nodes num (id ∷ ids) m = do
  check (ltb id max_node_id)
  add_nodes num ids (record m {
    node2server = add_servers id num 0 m.node2server;
    node2worker_helper = push_back id (thread_id id worker_helper_thread_id) m.node2worker_helper;
  })

unfoldable pub init : ℕ → List ℕ → SimpleIdMapper → Option SimpleIdMapper
unfolding add_nodes
init num_server_threads_per_node ids m = do
  check (ltb 0 num_server_threads_per_node)
  check (leb num_server_threads_per_node worker_helper_thread_id)
  add_nodes num_server_threads_per_node ids m

-- The threads of a node's workers.
abbrev pub workers_of : ℕ → SimpleIdMapper → Set
workers_of node_id m = find_or node_id [] m.node2worker

-- The loop of `AllocateWorkerThread`, with `n` rounds left from the index `i`.
unfoldable pub first_free : Set → ℕ → ℕ → ℕ → Option ℕ
first_free used node_id zero i = none
first_free used node_id (suc n) i =
    let rest = first_free used node_id n (i + 1) in
    if contains (thread_id node_id i) used then rest else some (thread_id node_id i)

unfoldable pub allocate_worker_thread : ℕ → SimpleIdMapper → Option (ℕ × SimpleIdMapper)
allocate_worker_thread node_id m = do
  _ ← find node_id m.node2worker_helper
  let used = workers_of node_id m
  check (leb (length used) (max_threads_per_node - max_bg_threads_per_node))
  tid ←
      first_free used node_id (max_threads_per_node - max_bg_threads_per_node)
        max_bg_threads_per_node
  some (tid, record m { node2worker = put node_id (put tid tt used) m.node2worker })

unfoldable pub deallocate_worker_thread : ℕ → ℕ → SimpleIdMapper → Option SimpleIdMapper
deallocate_worker_thread node_id tid m = do
  _ ← find node_id m.node2worker_helper
  let used = workers_of node_id m
  check (contains tid used)
  some (record m { node2worker = put node_id (erase tid used) m.node2worker })

unfoldable pub get_node_id_for_thread : ℕ → ℕ
get_node_id_for_thread tid = tid / max_threads_per_node

abbrev pub get_server_threads_for_id : ℕ → SimpleIdMapper → List ℕ
get_server_threads_for_id node_id m = find_or node_id [] m.node2server

abbrev pub get_worker_helper_threads_for_id : ℕ → SimpleIdMapper → List ℕ
get_worker_helper_threads_for_id node_id m = find_or node_id [] m.node2worker_helper

abbrev pub get_worker_threads_for_id : ℕ → SimpleIdMapper → List ℕ
get_worker_threads_for_id node_id m = map (λ e. e.0) (workers_of node_id m)

all_values : Dict (List ℕ) → List ℕ
all_values [] = []
all_values ((k, vs) ∷ m) = vs ++ all_values m

unfoldable pub get_all_server_threads : SimpleIdMapper → List ℕ
unfolding all_values
get_all_server_threads m = all_values m.node2server

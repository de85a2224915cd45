-- ===== src/Driver/WorkerSpec.antt =====
-- driver/worker_spec.hpp and .cpp, and `WorkerAlloc` of driver/ml_task.hpp: the workers of a task,
-- their nodes and their threads.
pub mod Bijection
use flexps.Base.{
  ℕ, zero, suc, ◌+◌, ◌-◌, List, [], ◌∷◌, ◌++◌, map, Option, none, some, Bool, Dict, find, find_or,
  contains, put, not, ltb, if◌then◌else◌, ◌>>=◌, ◌>>◌, check,
}
use flexps.Driver.IdMapper.{
  Set, push_back, max_node_id, max_threads_per_node, max_bg_threads_per_node,
}

pub record WorkerAlloc : Type 0 where
  pub node_id : ℕ
  pub num_workers : ℕ

pub record WorkerSpec : Type 0 where
  pub worker_to_node : Dict ℕ
  pub node_to_workers : Dict (List ℕ)
  pub worker_to_thread : Dict ℕ
  pub thread_to_worker : Dict ℕ
  pub node_to_threads : Dict (List ℕ)
  pub thread_ids : Set
  pub num_workers : ℕ

abbrev pub empty : WorkerSpec
empty = record {
  worker_to_node = [];
  node_to_workers = [];
  worker_to_thread = [];
  thread_to_worker = [];
  node_to_threads = [];
  thread_ids = [];
  num_workers = 0;
}

-- The body of the inner loop of `Init`.
unfoldable pub add_worker : ℕ → WorkerSpec → WorkerSpec
add_worker node_id s = record s {
  worker_to_node = put s.num_workers node_id s.worker_to_node;
  node_to_workers = push_back node_id s.num_workers s.node_to_workers;
  num_workers = s.num_workers + 1;
}

unfoldable pub add_workers : ℕ → ℕ → WorkerSpec → WorkerSpec
unfolding add_worker
add_workers node_id zero s = s
add_workers node_id (suc n) s = add_workers node_id n (add_worker node_id s)

unfoldable pub init_from : List WorkerAlloc → WorkerSpec → Option WorkerSpec
unfolding add_workers
init_from [] s = some s
init_from (node ∷ nodes) s = do
  check (ltb node.node_id max_node_id)
  check (ltb node.num_workers (max_threads_per_node - max_bg_threads_per_node))
  init_from nodes (add_workers node.node_id node.num_workers s)

-- The constructor.
unfoldable pub make : List WorkerAlloc → Option WorkerSpec
unfolding init_from
make worker_alloc = init_from worker_alloc empty

abbrev pub has_local_workers : ℕ → WorkerSpec → Bool
has_local_workers node_id s = contains node_id s.node_to_workers

abbrev pub get_local_workers : ℕ → WorkerSpec → Option (List ℕ)
get_local_workers node_id s = find node_id s.node_to_workers

abbrev pub get_local_threads : ℕ → WorkerSpec → Option (List ℕ)
get_local_threads node_id s = find node_id s.node_to_threads

abbrev pub get_node_to_workers : WorkerSpec → Dict (List ℕ)
get_node_to_workers s = s.node_to_workers

abbrev pub get_all_thread_ids : WorkerSpec → List ℕ
get_all_thread_ids s = map (λ e. e.0) s.thread_ids

unfoldable pub insert_worker_id_thread_id : ℕ → ℕ → WorkerSpec → Option WorkerSpec
insert_worker_id_thread_id worker_id thread_id s = do
  check (not (contains worker_id s.worker_to_thread))
  check (not (contains thread_id s.thread_to_worker))
  check (not (contains thread_id s.thread_ids))
  node_id ← find worker_id s.worker_to_node
  some (record s {
    worker_to_thread = put worker_id thread_id s.worker_to_thread;
    thread_to_worker = put thread_id worker_id s.thread_to_worker;
    thread_ids = put thread_id tt s.thread_ids;
    node_to_threads = push_back node_id thread_id s.node_to_threads;
  })

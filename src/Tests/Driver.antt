-- ===== src/Tests/Driver.antt =====
-- Node 2 with one server thread and one worker thread, and a task with workers on two nodes.
use flexps.Base.{ℕ, ◌≡◌, refl, List, [], ◌∷◌, some, contains, find, arith}
use flexps.Driver.IdMapper.{
  SimpleIdMapper, thread_id, workers_of, allocate_worker_thread, first_free,
  deallocate_worker_thread, get_node_id_for_thread,
}
use flexps.Driver.IdMapper.Workers.{
  Allocates, allocate-Allocates, allocate_total, deallocate-allocate,
  get_node_id_for_thread-thread_id,
}
use flexps.Driver.WorkerSpec.{
  WorkerAlloc, WorkerSpec, make, init_from, add_workers, add_worker, insert_worker_id_thread_id,
}
use flexps.Driver.WorkerSpec.Bijection.{
  IsBijective, Numbered, total_workers, insert-IsBijective, make-Numbered,
}
use flexps.Driver.Engine.{allocate_workers, place_nodes, place_workers}
use flexps.Driver.Engine.Allocation.{OnNode, allocate_workers-OnNode}

abbrev mapper : SimpleIdMapper
mapper = record {
  node2server = (2, 2000 ∷ []) ∷ [];
  node2worker_helper = (2, 2050 ∷ []) ∷ [];
  node2worker = (2, (2100, tt) ∷ []) ∷ [];
}

abbrev mapped : SimpleIdMapper
mapped = record mapper { node2worker = (2, (2100, tt) ∷ (2101, tt) ∷ []) ∷ [] }

allocate-Allocates_example : Allocates 2 2101 mapper mapped
unfolding allocate_worker_thread first_free thread_id
allocate-Allocates_example = allocate-Allocates 2 2101 mapper mapped (omega arith) refl

allocate_total_example :
    (tid : ℕ) × (m' : SimpleIdMapper) × (allocate_worker_thread 2 mapper ≡ some (tid, m'))
unfolding thread_id
allocate_total_example =
    allocate_total 2 mapper 107 refl (omega arith) (omega arith) (omega arith) refl

deallocate-allocate_example :
    (m'' : SimpleIdMapper) × (deallocate_worker_thread 2 2101 mapped ≡ some m'')
    × ((j t : ℕ) → contains t (workers_of j m'') ≡ contains t (workers_of j mapper))
unfolding allocate_worker_thread first_free thread_id
deallocate-allocate_example = deallocate-allocate 2 2101 mapper mapped (omega arith) refl

get_node_id_for_thread-thread_id_example : get_node_id_for_thread (thread_id 3 104) ≡ 3
get_node_id_for_thread-thread_id_example =
    get_node_id_for_thread-thread_id 3 104 (omega arith) (omega arith)

abbrev alloc : List WorkerAlloc
alloc = record { node_id = 2; num_workers = 2 } ∷ record { node_id = 5; num_workers = 1 } ∷ []

abbrev spec : WorkerSpec
spec = record {
  worker_to_node = (0, 2) ∷ (1, 2) ∷ (2, 5) ∷ [];
  node_to_workers = (2, 0 ∷ 1 ∷ []) ∷ (5, 2 ∷ []) ∷ [];
  worker_to_thread = [];
  thread_to_worker = [];
  node_to_threads = [];
  thread_ids = [];
  num_workers = 3;
}

make-Numbered_example : Numbered spec × (spec.num_workers ≡ total_workers alloc)
unfolding make init_from add_workers add_worker
make-Numbered_example = make-Numbered alloc spec refl

abbrev filled : WorkerSpec
filled = record spec {
  worker_to_thread = (1, 2100) ∷ [];
  thread_to_worker = (2100, 1) ∷ [];
  node_to_threads = (2, 2100 ∷ []) ∷ [];
  thread_ids = (2100, tt) ∷ [];
}

spec-IsBijective : IsBijective spec
spec-IsBijective = record {
  forth = λ w t e. absurd (cc);
  back = λ w t e. absurd (cc);
  listed = λ t. refl;
}

insert-IsBijective_example : IsBijective filled × (find 1 filled.worker_to_thread ≡ some 2100)
unfolding insert_worker_id_thread_id
insert-IsBijective_example = insert-IsBijective 1 2100 spec filled spec-IsBijective refl

abbrev one_node : List WorkerAlloc
one_node = record { node_id = 2; num_workers = 1 } ∷ []

abbrev placed : WorkerSpec
placed = record {
  worker_to_node = (0, 2) ∷ [];
  node_to_workers = (2, 0 ∷ []) ∷ [];
  worker_to_thread = (0, 2101) ∷ [];
  thread_to_worker = (2101, 0) ∷ [];
  node_to_threads = (2, 2101 ∷ []) ∷ [];
  thread_ids = (2101, tt) ∷ [];
  num_workers = 1;
}

allocate_workers-OnNode_example : IsBijective placed × OnNode placed
unfolding allocate_workers place_nodes place_workers allocate_worker_thread first_free thread_id
    make init_from add_workers add_worker insert_worker_id_thread_id
allocate_workers-OnNode_example = allocate_workers-OnNode one_node mapper mapped placed refl

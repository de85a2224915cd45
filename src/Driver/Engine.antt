-- ===== src/Driver/Engine.antt =====
-- driver/engine.cpp: the two steps of the engine that compute. `AllocateWorkers` gives each worker of a
-- task a thread; `RegisterRangePartitionManager` cuts a table over all server threads. An engine starts
-- and stops the threads of the other parts, which is left out.
pub mod Allocation
use flexps.Base.{
  ℕ, List, [], ◌∷◌, Option, none, some, ◌>>=◌, ◌>>◌, Dict, put, contains, check, not, length, ◌==◌,
}
use flexps.Driver.IdMapper.{SimpleIdMapper, allocate_worker_thread, get_all_server_threads}
use flexps.Driver.WorkerSpec
use flexps.Driver.WorkerSpec.{WorkerSpec, WorkerAlloc, insert_worker_id_thread_id}
use flexps.Worker.RangeManager
use flexps.Worker.RangeManager.{Range, SimpleRangePartitionManager}

-- The inner loop of `AllocateWorkers`, over the workers of one node.
unfoldable pub place_workers :
    ℕ → List ℕ → SimpleIdMapper → WorkerSpec → Option (SimpleIdMapper × WorkerSpec)
place_workers node_id [] m s = some (m, s)
place_workers node_id (worker ∷ workers) m s = do
  (tid, m') ← allocate_worker_thread node_id m
  s' ← insert_worker_id_thread_id worker tid s
  place_workers node_id workers m' s'

-- The outer loop.
unfoldable pub place_nodes :
    Dict (List ℕ) → SimpleIdMapper → WorkerSpec → Option (SimpleIdMapper × WorkerSpec)
unfolding place_workers
place_nodes [] m s = some (m, s)
place_nodes ((node_id, workers) ∷ nodes) m s = do
  (m', s') ← place_workers node_id workers m s
  place_nodes nodes m' s'

unfoldable pub allocate_workers :
    List WorkerAlloc → SimpleIdMapper → Option (SimpleIdMapper × WorkerSpec)
unfolding place_nodes
allocate_workers worker_alloc m = do
  worker_spec ← WorkerSpec.make worker_alloc
  place_nodes worker_spec.node_to_workers m worker_spec

-- `partition_manager_map_`
abbrev pub PartitionManagerMap : Type 0
PartitionManagerMap = Dict SimpleRangePartitionManager

unfoldable pub register_range_partition_manager :
    ℕ → List Range → SimpleIdMapper → PartitionManagerMap → Option PartitionManagerMap
register_range_partition_manager table_id ranges id_mapper managers = do
  let server_thread_ids = get_all_server_threads id_mapper
  check (length ranges == length server_thread_ids)
  range_manager ← RangeManager.make ranges server_thread_ids
  check (not (contains table_id managers))
  some (put table_id range_manager managers)

-- ===== src/Driver/WorkerSpec/Bijection.antt =====
-- Workers and threads are in bijection, and workers are numbered from 0.
use flexps.Base.{
  ℕ, zero, suc, ◌+◌, ◌≡◌, List, [], ◌∷◌, some, find, contains, put, not, ltb, check, >>=-eq-some,
  arith, find-put, subst, ap,
}
use flexps.Driver.WorkerSpec.{
  WorkerAlloc, WorkerSpec, empty, add_worker, add_workers, init_from, make,
  insert_worker_id_thread_id,
}

-- `worker_to_thread` and `thread_to_worker` are inverse to each other, and `thread_ids` holds the
-- threads of either.
pub record IsBijective (s : WorkerSpec) : Type 0 where
  pub forth : (w t : ℕ) → find w s.worker_to_thread ≡ some t → find t s.thread_to_worker ≡ some w
  pub back : (w t : ℕ) → find t s.thread_to_worker ≡ some w → find w s.worker_to_thread ≡ some t
  pub listed : (t : ℕ) → contains t s.thread_ids ≡ contains t s.thread_to_worker

-- The workers are 0, 1, … up to `num_workers`.
abbrev pub Numbered : WorkerSpec → Type 0
Numbered s = (w : ℕ) → contains w s.worker_to_node ≡ ltb w s.num_workers

-- A successful `InsertWorkerIdThreadId` keeps the maps between workers and threads inverse to each
-- other, and gives the worker that thread.
pub insert-IsBijective :
    (w t : ℕ) (s s' : WorkerSpec)
    → IsBijective s
    → insert_worker_id_thread_id w t s ≡ some s'
    → IsBijective s' × (find w s'.worker_to_thread ≡ some t)
unfolding insert_worker_id_thread_id
insert-IsBijective w t s s' v e =
    let (u0, new_worker, e0) = >>=-eq-some (check (not (contains w s.worker_to_thread))) _ e in
    let (u1, new_thread, e1) = >>=-eq-some (check (not (contains t s.thread_to_worker))) _ e0 in
    let (u2, new_id, e2) = >>=-eq-some (check (not (contains t s.thread_ids))) _ e1 in
    let (node_id, placed, e3) = >>=-eq-some (find w s.worker_to_node) _ e2 in
    let ew : s'.worker_to_thread ≡ put w t s.worker_to_thread = ground arith in
    let et : s'.thread_to_worker ≡ put t w s.thread_to_worker = ground arith in
    let ei : s'.thread_ids ≡ put t tt s.thread_ids = ground arith in
    (
      record {
        forth = λ x y h. ground (
          arith,
          find-put x w t s.worker_to_thread,
          find-put y t w s.thread_to_worker,
          v.forth x y,
        );
        back = λ x y h. ground (
          arith,
          find-put x w t s.worker_to_thread,
          find-put y t w s.thread_to_worker,
          v.back x y,
        );
        listed = λ y.
            ground
              (arith, find-put y t tt s.thread_ids, find-put y t w s.thread_to_worker, v.listed y);
      },
      ground (arith, find-put w w t s.worker_to_thread),
    )

pub add_worker-Numbered :
    (node_id : ℕ) (s : WorkerSpec) → Numbered s → Numbered (add_worker node_id s)
unfolding add_worker
add_worker-Numbered node_id s v w =
    ground (arith, find-put w s.num_workers node_id s.worker_to_node, v w)

add_workers-Numbered :
    (node_id n : ℕ) (s : WorkerSpec)
    → Numbered s
    → Numbered (add_workers node_id n s)
      × ((add_workers node_id n s).num_workers ≡ s.num_workers + n)
unfolding add_workers
add_workers-Numbered node_id zero s v = (v, omega arith)
add_workers-Numbered node_id (suc n) s v =
    let (v', e) =
      add_workers-Numbered node_id n (add_worker node_id s) (add_worker-Numbered node_id s v) in
    (v', unfold add_worker in omega (arith, e))

abbrev pub total_workers : List WorkerAlloc → ℕ
total_workers [] = 0
total_workers (node ∷ nodes) = node.num_workers + total_workers nodes

init_from-Numbered :
    (nodes : List WorkerAlloc) (s s' : WorkerSpec)
    → Numbered s
    → init_from nodes s ≡ some s'
    → Numbered s' × (s'.num_workers ≡ s.num_workers + total_workers nodes)
unfolding init_from
init_from-Numbered [] s s' v e =
    let same : s ≡ s' = ground arith in
    (subst Numbered same v, omega (arith, ap (λ (x : WorkerSpec). x.num_workers) same))
init_from-Numbered (node ∷ nodes) s s' v e =
    let (u0, small, e0) = >>=-eq-some (check (ltb node.node_id 1000)) _ e in
    let (u1, few, e1) = >>=-eq-some (check (ltb node.num_workers 900)) _ e0 in
    let (v', n) = add_workers-Numbered node.node_id node.num_workers s v in
    let (v'', n') =
      init_from-Numbered nodes (add_workers node.node_id node.num_workers s) s' v' e1 in
    (v'', omega (arith, n, n'))

-- A `WorkerSpec` that is made numbers its workers from 0 on without a gap, and has as many as the
-- allocation.
pub make-Numbered :
    (worker_alloc : List WorkerAlloc) (s : WorkerSpec)
    → make worker_alloc ≡ some s
    → Numbered s × (s.num_workers ≡ total_workers worker_alloc)
unfolding make
make-Numbered worker_alloc s e =
    let (v, n) = init_from-Numbered worker_alloc empty s (λ w. ground arith) e in
    (v, omega (arith, n))

-- ===== src/Driver/Engine/Allocation.antt =====
-- Every worker runs on a thread of its own node, and no two workers share one.
use flexps.Base.{
  ℕ, zero, suc, ◌≡◌, ◌<◌, refl, sym, List, [], ◌∷◌, ◌++◌, some, Dict, find, find_or, put, contains,
  All, All-append, All-find, arith, >>=-eq-some, subst, ◌∙◌, find-put, inl, inr, check, ap, ltb,
  Option-cases,
}
use flexps.Driver.IdMapper.{SimpleIdMapper, allocate_worker_thread, get_node_id_for_thread}
use flexps.Driver.IdMapper.Workers.{allocate-Allocates}
use flexps.Driver.WorkerSpec
use flexps.Driver.WorkerSpec.{
  WorkerSpec, WorkerAlloc, insert_worker_id_thread_id, add_worker, add_workers, init_from, empty,
}
use flexps.Driver.WorkerSpec.Bijection.{
  IsBijective, Numbered, insert-IsBijective, add_worker-Numbered,
}
use flexps.Driver.Engine.{place_workers, place_nodes, allocate_workers}

-- Each node of the spec is below `kMaxNodeId`, and its workers are recorded on it.
abbrev Placed : Dict ℕ → ℕ × List ℕ → Type 0
Placed worker_to_node e = (e.0 < 1000) × All (λ w. find w worker_to_node ≡ some e.0) e.1

abbrev Consistent : WorkerSpec → Type 0
Consistent s = All (Placed s.worker_to_node) s.node_to_workers

-- A thread that a worker has is a thread of the worker's node.
abbrev pub OnNode : WorkerSpec → Type 0
OnNode s =
    (w t : ℕ)
    → find w s.worker_to_thread ≡ some t
    → find w s.worker_to_node ≡ some (get_node_id_for_thread t)

All-put {ℓ κ} :
    {V : Type ℓ} (P : ℕ × V → Type κ) (k : ℕ) (v : V) (m : Dict V)
    → All P m
    → P (k, v)
    → All P (put k v m)
All-put P k v [] a h = (h, tt)
All-put P k v (e ∷ m) a h = ground (arith, All-put P k v m a.1 h)

still_placed :
    (n node : ℕ) (d : Dict ℕ) (k : ℕ) (ws : List ℕ)
    → ((w : ℕ) → contains w d ≡ ltb w n)
    → All (λ w. find w d ≡ some k) ws
    → All (λ w. find w (put n node d) ≡ some k) ws
still_placed n node d k [] v a = tt
still_placed n node d k (w ∷ ws) v a =
    (ground (arith, find-put w n node d, v w, a.0), still_placed n node d k ws v a.1)

still-Placed :
    (n node : ℕ) (d : Dict ℕ) (m : Dict (List ℕ))
    → ((w : ℕ) → contains w d ≡ ltb w n)
    → All (Placed d) m
    → All (Placed (put n node d)) m
still-Placed n node d [] v a = tt
still-Placed n node d (e ∷ m) v a =
    ((a.0.0, still_placed n node d e.0 e.1 v a.0.1), still-Placed n node d m v a.1)

find_or-Placed :
    (d : Dict ℕ) (m : Dict (List ℕ)) (node : ℕ)
    → All (Placed d) m
    → All (λ w. find w d ≡ some node) (find_or node [] m)
find_or-Placed d m node a = elim (Option-cases (find node m)) [
  | inl missing ↦
      let nothing : find_or node [] m ≡ [] = ground arith in
      subst (All (λ w. find w d ≡ some node)) (sym nothing) tt
  | inr (ws, found) ↦
      let those : find_or node [] m ≡ ws = ground arith in
      subst (All (λ w. find w d ≡ some node)) (sym those) (All-find (Placed d) node m a found).1
]

add_worker-Consistent :
    (node : ℕ) (s : WorkerSpec)
    → node < 1000
    → Numbered s
    → Consistent s
    → Consistent (add_worker node s)
unfolding add_worker
add_worker-Consistent node s small v a =
    let d' = put s.num_workers node s.worker_to_node in
    let here : find s.num_workers d' ≡ some node =
      ground (arith, find-put s.num_workers s.num_workers node s.worker_to_node) in
    let kept = still-Placed s.num_workers node s.worker_to_node s.node_to_workers v a in
    All-put (Placed d') node (find_or node [] s.node_to_workers ++ s.num_workers ∷ [])
      s.node_to_workers kept
      (
        small,
        All-append (λ w. find w d' ≡ some node) (find_or node [] s.node_to_workers)
            (s.num_workers ∷ []) (find_or-Placed d' s.node_to_workers node kept) (here, tt),
      )

add_workers-Consistent :
    (node n : ℕ) (s : WorkerSpec)
    → node < 1000
    → Numbered s
    → Consistent s
    → Numbered (add_workers node n s) × Consistent (add_workers node n s)
unfolding add_workers
add_workers-Consistent node zero s small v a = (v, a)
add_workers-Consistent node (suc n) s small v a =
    add_workers-Consistent node n (add_worker node s) small (add_worker-Numbered node s v)
      (add_worker-Consistent node s small v a)

-- No worker has a thread yet.
abbrev Unplaced : WorkerSpec → Type 0
Unplaced s = (s.worker_to_thread ≡ []) × (s.thread_to_worker ≡ []) × (s.thread_ids ≡ [])

add_workers-Unplaced : (node n : ℕ) (s : WorkerSpec) → Unplaced s → Unplaced (add_workers node n s)
unfolding add_workers add_worker
add_workers-Unplaced node zero s u = u
add_workers-Unplaced node (suc n) s u = add_workers-Unplaced node n (add_worker node s) u

init_from-Consistent :
    (nodes : List WorkerAlloc) (s s' : WorkerSpec)
    → Numbered s
    → Consistent s
    → Unplaced s
    → init_from nodes s ≡ some s'
    → Consistent s' × Unplaced s'
unfolding init_from
init_from-Consistent [] s s' v a u e =
    let same : s ≡ s' = ground arith in (subst Consistent same a, subst Unplaced same u)
init_from-Consistent (node ∷ nodes) s s' v a u e =
    let (u0, small, e0) = >>=-eq-some (check (ltb node.node_id 1000)) _ e in
    let (u1, few, e1) = >>=-eq-some (check (ltb node.num_workers 900)) _ e0 in
    let below : node.node_id < 1000 = ground arith in
    let (v', a') = add_workers-Consistent node.node_id node.num_workers s below v a in
    init_from-Consistent nodes (add_workers node.node_id node.num_workers s) s' v' a'
      (add_workers-Unplaced node.node_id node.num_workers s u) e1

-- What each step of the allocation keeps, and the workers that it still has to place.
record Valid (s : WorkerSpec) : Type 0 where
  bijective : IsBijective s
  on_node : OnNode s

insert_keeps :
    (w t : ℕ) (s s' : WorkerSpec)
    → insert_worker_id_thread_id w t s ≡ some s'
    → (s'.worker_to_node ≡ s.worker_to_node) × (s'.worker_to_thread ≡ put w t s.worker_to_thread)
unfolding insert_worker_id_thread_id
insert_keeps w t s s' e = (ground arith, ground arith)

insert-Valid :
    (w t : ℕ) (s s' : WorkerSpec)
    → Valid s
    → find w s.worker_to_node ≡ some (get_node_id_for_thread t)
    → insert_worker_id_thread_id w t s ≡ some s'
    → Valid s'
insert-Valid w t s s' v here e =
    let (en, et) = insert_keeps w t s s' e in
    record {
      bijective = (insert-IsBijective w t s s' v.bijective e).0;
      on_node = λ x y h. ground (arith, find-put x w t s.worker_to_thread, v.on_node x y);
    }

place_workers-Valid :
    (node : ℕ) (ws : List ℕ) (m m' : SimpleIdMapper) (s s' : WorkerSpec)
    → Valid s
    → Placed s.worker_to_node (node, ws)
    → place_workers node ws m s ≡ some (m', s')
    → Valid s' × (s'.worker_to_node ≡ s.worker_to_node)
unfolding place_workers
place_workers-Valid node [] m m' s s' v h e =
    let same : s ≡ s' = ground arith in (subst Valid same v, ground arith)
place_workers-Valid node (w ∷ ws) m m' s s' v h e =
    let ((tid, m1), given, e1) = >>=-eq-some (allocate_worker_thread node m) _ e in
    let (s1, inserted, e2) = >>=-eq-some (insert_worker_id_thread_id w tid s) _ e1 in
    let a = allocate-Allocates node tid m m1 h.0 given in
    let keeps = (insert_keeps w tid s s1 inserted).0 in
    let here : find w s.worker_to_node ≡ some (get_node_id_for_thread tid) =
      h.1.0 ∙ ap some (sym a.on_node) in
    let v1 = insert-Valid w tid s s1 v here inserted in
    let (v2, kept) =
      place_workers-Valid node ws m1 m' s1 s' v1
        (h.0, subst (λ d. All (λ x. find x d ≡ some node) ws) (sym keeps) h.1.1) e2 in
    (v2, kept ∙ keeps)

place_nodes-Valid :
    (nodes : Dict (List ℕ)) (m m' : SimpleIdMapper) (s s' : WorkerSpec)
    → Valid s
    → All (Placed s.worker_to_node) nodes
    → place_nodes nodes m s ≡ some (m', s')
    → Valid s'
unfolding place_nodes
place_nodes-Valid [] m m' s s' v h e = let same : s ≡ s' = ground arith in subst Valid same v
place_nodes-Valid ((node, ws) ∷ nodes) m m' s s' v h e =
    let ((m1, s1), done, e1) = >>=-eq-some (place_workers node ws m s) _ e in
    let (v1, keeps) = place_workers-Valid node ws m m1 s s1 v h.0 done in
    place_nodes-Valid nodes m1 m' s1 s' v1 (subst (λ d. All (Placed d) nodes) (sym keeps) h.1) e1

-- An allocation that succeeds runs each worker that it gives a thread on the worker's own node, and no
-- two workers on one thread.
pub allocate_workers-OnNode :
    (worker_alloc : List WorkerAlloc) (m m' : SimpleIdMapper) (s : WorkerSpec)
    → allocate_workers worker_alloc m ≡ some (m', s)
    → IsBijective s × OnNode s
unfolding allocate_workers WorkerSpec.make
allocate_workers-OnNode worker_alloc m m' s e =
    let (s0, made, e1) = >>=-eq-some (WorkerSpec.make worker_alloc) _ e in
    let (a, (no_workers, no_threads, no_ids)) =
      init_from-Consistent worker_alloc empty s0 (λ w. ground arith) tt (refl, refl, refl) made in
    let start : Valid s0 = record {
      bijective = record {
        forth = λ w t h. absurd (ground arith);
        back = λ w t h. absurd (ground arith);
        listed = λ t. ground arith;
      };
      on_node = λ w t h. absurd (ground arith);
    } in
    let v = place_nodes-Valid s0.node_to_workers m m' s0 s start a e1 in (v.bijective, v.on_node)

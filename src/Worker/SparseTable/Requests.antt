-- ===== src/Worker/SparseTable/Requests.antt =====
-- A Get of a sparse table sends a request ahead, and waits for the replies to one that it sent before.
use flexps.Base.{
  ℕ, suc, ◌+◌, ◌%◌, ◌<◌, ◌≡◌, refl, sym, ap, subst, ◌∙◌, List, [], ◌∷◌, ◌++◌, some, true, false,
  ◌==◌, if◌then◌else◌, length, get_elem?, take, drop, All, All-get_elem?, drop-get_elem?, add_u32,
  sub_u32, add_u32_exact, sub_u32_exact, u32_mod, arith, append_assoc, ==_refl,
}
use flexps.Message.{Platform, Values}
use flexps.Worker.RangeManager.{SlicedKvs, AbstractPartitionManager}
use flexps.Worker.Blocker.{AppBlocker, find2, tracked, new_request, register_recv_finish_handle}
use flexps.Worker.Blocker.Responses.{Awaits, find2-put2, new_request-Awaits}
use flexps.Worker.SparseTable.{
  SparseTable, SparseClient, recv_handle, recv_finish_handle, send, clock, send_gets, send_next,
  get_,
}
use flexps.Worker.SparseTable.Gets.{
  Sliceable, parts_of, parts_of-slice, counts, gets, gets-counts, send_gets_lem,
}

module _ {Val : Type 0} ⦃p : Platform⦄ ⦃w : Values Val⦄ where
  -- The receive handle of the table is registered.
  abbrev pub Registered : SparseTable Val → AppBlocker (SparseClient Val) → Type 0
  Registered t b = find2 t.app_thread_id t.model_id b.recv_handle ≡ some recv_handle

  -- The table waits for `n` replies, of which none has come.
  abbrev pub Waiting : SparseTable Val → ℕ → AppBlocker (SparseClient Val) → Type 0
  Waiting t n b = Awaits t.app_thread_id t.model_id recv_handle recv_finish_handle n 0 b

  -- `Get_` registers its handle and asks for `n` replies.
  pub requested :
      (t : SparseTable Val) (n : ℕ) (b : AppBlocker (SparseClient Val))
      → Registered t b
      → (b2 : AppBlocker (SparseClient Val)) × (new_request t.app_thread_id t.model_id n
            (register_recv_finish_handle t.app_thread_id t.model_id recv_finish_handle b)
          ≡ some b2)
        × Waiting t n b2
  unfolding register_recv_finish_handle
  requested t n b reg =
      let a = t.app_thread_id in
      let m = t.model_id in
      let b1 = register_recv_finish_handle a m recv_finish_handle b in
      let w1 : Awaits a m recv_handle recv_finish_handle (tracked a m b1).0 (tracked a m b1).1 b1 =
        record {
          handled = reg;
          finished =
              find2-put2 a m a m recv_finish_handle b.recv_finish_handle
              ∙ rw (==_refl a, ==_refl m);
          counted = refl;
        } in
      new_request-Awaits a m recv_handle recv_finish_handle n (tracked a m b1).1 (tracked a m b1).0
        b1 w1

  module _ (manager : AbstractPartitionManager) where
    -- The loop of the first Get.
    pub send_first :
        (n : ℕ) (t : SparseTable Val) (b b2 : AppBlocker (SparseClient Val)) (keys : List ℕ)
        → All (Sliceable manager) t.keys
        → n < length t.keys
        → get_elem? t.keys 0 ≡ some keys
        → new_request t.app_thread_id t.model_id (length (parts_of manager keys)) b ≡ some b2
        → send_gets manager (suc n) 0 t b
          ≡ some (
            gets manager t 0 (take (suc n) t.keys),
            record t { num_reqs = t.num_reqs ++ counts manager (take (suc n) t.keys) },
            b2,
          )
    unfolding send_gets
    send_first n t b b2 keys all room at made =
        let (sliced, cut, fits) = All-get_elem? (Sliceable manager) t.keys 0 keys all at in
        go sliced cut fits
      where
        rest :
            (nums : List ℕ)
            → send_gets manager n 1 (record t { num_reqs = nums }) b2
              ≡ some (
                gets manager (record t { num_reqs = nums }) 1 (take n (drop 1 t.keys)),
                record t { num_reqs = nums ++ counts manager (take n (drop 1 t.keys)) },
                b2,
              )
        rest nums =
            send_gets_lem manager n 0 (record t { num_reqs = nums }) b2 all (omega (arith, room))

        go :
            (sliced : SlicedKvs)
            → manager.slice (record { keys = keys; vals = [] }) ≡ some sliced
            → length sliced < u32_mod
            → send_gets manager (suc n) 0 t b
              ≡ some (
                gets manager t 0 (take (suc n) t.keys),
                record t { num_reqs = t.num_reqs ++ counts manager (take (suc n) t.keys) },
                b2,
              )
        go sliced cut fits =
            let whole : length sliced % u32_mod ≡ length sliced = omega (arith, fits) in
            let same = parts_of-slice manager keys sliced cut in
            let made' : new_request t.app_thread_id t.model_id (length sliced) b ≡ some b2 =
              subst (λ s. new_request t.app_thread_id t.model_id (length s) b ≡ some b2) same
                made in
            let head : take (suc n) t.keys ≡ keys ∷ take n (drop 1 t.keys) =
              ap (take (suc n)) (drop-get_elem? t.keys 0 keys at) in
            rw
              (
                at,
                cut,
                whole,
                made',
                rest (t.num_reqs ++ length sliced ∷ []),
                append_assoc t.num_reqs (length sliced ∷ [])
                    (counts manager (take n (drop 1 t.keys))),
                gets-counts manager t (t.num_reqs ++ length sliced ∷ []) t.get_count 1
                    (take n (drop 1 t.keys)),
              )
              (ap
                  (λ s. some (
                    send t false 0 s ++ gets manager t 1 (take n (drop 1 t.keys)),
                    record t {
                      num_reqs = t.num_reqs ++ (length s ∷ counts manager (take n (drop 1 t.keys)));
                    },
                    b2,
                  ))
                  (sym same)
                ∙ ap
                    (λ ks. some (
                      gets manager t 0 ks,
                      record t { num_reqs = t.num_reqs ++ counts manager ks },
                      b2,
                    ))
                    (sym head))

    -- The later Gets.
    pub send_next_lem :
        (g : ℕ) (t : SparseTable Val) (b b2 : AppBlocker (SparseClient Val)) (keys later : List ℕ)
        → All (Sliceable manager) t.keys
        → t.get_count ≡ suc g
        → suc g + t.speculation < u32_mod
        → get_elem? t.num_reqs g ≡ some (length (parts_of manager keys))
        → get_elem? t.keys (g + t.speculation) ≡ some later
        → new_request t.app_thread_id t.model_id (length (parts_of manager keys)) b ≡ some b2
        → send_next manager t b
          ≡ some (
            clock t manager ++ send t false (g + t.speculation) (parts_of manager later),
            record t { num_reqs = t.num_reqs ++ length (parts_of manager later) ∷ [] },
            b2,
          )
    unfolding send_next
    send_next_lem g t b b2 keys later all count fits expected at made =
        let (sliced, cut, few) =
          All-get_elem? (Sliceable manager) t.keys (g + t.speculation) later all at in
        let whole : length sliced % u32_mod ≡ length sliced = omega (arith, few) in
        let same = parts_of-slice manager later sliced cut in
        let before : sub_u32 t.get_count 1 ≡ g =
          ap (λ k. sub_u32 k 1) count
          ∙ sub_u32_exact (suc g) 1 (omega (arith, fits)) (omega arith)
          ∙ omega arith in
        let next : add_u32 g t.speculation ≡ g + t.speculation =
          add_u32_exact g t.speculation (omega (arith, fits)) in
        rw (before, expected, made, next, at, cut, whole)
          (ap
            (λ s. some (
              clock t manager ++ send t false (g + t.speculation) s,
              record t { num_reqs = t.num_reqs ++ length s ∷ [] },
              b2,
            ))
            (sym same))

    -- A Get with as many Adds as Gets before it.
    pub get_-branches :
        (t : SparseTable Val) (b : AppBlocker (SparseClient Val))
        → t.add_count ≡ t.get_count
        → t.get_count + 1 < u32_mod
        → get_ manager t b ≡ (
            if suc t.get_count == 1
            then send_gets manager
                (suc t.speculation)
                0
                (record t { get_count = suc t.get_count })
                (register_recv_finish_handle t.app_thread_id t.model_id recv_finish_handle b)
            else send_next manager
                (record t { get_count = suc t.get_count })
                (register_recv_finish_handle t.app_thread_id t.model_id recv_finish_handle b))
    unfolding get_
    get_-branches t b paired fits =
        let equal : (t.get_count == t.add_count) ≡ true =
          ap (λ k. t.get_count == k) paired ∙ ==_refl t.get_count in
        let up : add_u32 t.get_count 1 ≡ suc t.get_count =
          add_u32_exact t.get_count 1 fits ∙ omega arith in
        let loops : t.speculation + 1 ≡ suc t.speculation = omega arith in
        rw (equal, up, loops) refl

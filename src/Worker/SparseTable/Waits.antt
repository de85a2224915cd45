-- ===== src/Worker/SparseTable/Waits.antt =====
-- A Get of a sparse table sends a request ahead, and waits for the replies to one that it sent before.
use flexps.Base.{
  ℕ, zero, suc, ◌+◌, ◌<◌, ◌≡◌, sym, ap, subst, ◌∙◌, List, [], ◌∷◌, ◌++◌, some, true, false, ◌==◌,
  length, get_elem?, take, drop, All, get_elem?-lt, drop-get_elem?, take-get_elem?, get_elem?-take,
  get_elem?-map, u32_mod, arith, append-nil, zero_or_suc, inl, inr,
}
use mathlib.Core.List.{map-append}
use flexps.Message.{Message, Platform, Values}
use flexps.Worker.RangeManager.{AbstractPartitionManager}
use flexps.Worker.Blocker.{AppBlocker, new_request, register_recv_finish_handle}
use flexps.Worker.SparseTable.{SparseTable, SparseClient, recv_finish_handle, send, clock, get_}
use flexps.Worker.SparseTable.Gets.{Sliceable, parts_of, counts, gets, gets-counts}
use flexps.Worker.SparseTable.Requests.{
  Registered, Waiting, requested, send_first, send_next_lem, get_-branches,
}

-- The number of iterations whose Gets are sent after `g` calls of `Get_`.
abbrev pub ahead : ℕ → ℕ → ℕ
ahead speculation zero = 0
ahead speculation (suc g) = suc g + speculation

module _ {Val : Type 0} ⦃p : Platform⦄ ⦃w : Values Val⦄ (manager : AbstractPartitionManager) where
  -- The table between two rounds: as many Adds as Gets, the number of parts of each Get that was sent,
  -- and no reply in the box. The requests of all iterations can be cut.
  pub record Ready (t : SparseTable Val) (b : AppBlocker (SparseClient Val)) : Type 0 where
    pub paired : t.add_count ≡ t.get_count
    pub counted : t.num_reqs ≡ counts manager (take (ahead t.speculation t.get_count) t.keys)
    pub box_empty : t.recv_kvs ≡ []
    pub registered : Registered t b
    pub sliceable : All (Sliceable manager) t.keys
    pub few : length t.keys < u32_mod

  -- The messages of the next `Get_`: at first the Gets of `speculation + 1` iterations, and later a Clock
  -- and the Get that is `speculation` iterations ahead.
  abbrev pub next_msgs : ℕ → SparseTable Val → List Message
  next_msgs zero t = gets manager t 0 (take (suc t.speculation) t.keys)
  next_msgs (suc g) t =
      clock (record t { get_count = suc (suc g) }) manager
      ++ gets manager t (suc g + t.speculation) (take 1 (drop (suc g + t.speculation) t.keys))

  -- The table in the wait.
  abbrev pub asked : SparseTable Val → SparseTable Val
  asked t = record t {
    get_count = suc t.get_count;
    num_reqs = counts manager (take (suc (t.get_count + t.speculation)) t.keys);
  }

  -- The first Get.
  asks_first :
      (t : SparseTable Val) (b b2 : AppBlocker (SparseClient Val)) (keys : List ℕ)
      → Ready t b
      → t.get_count ≡ 0
      → t.get_count + t.speculation < length t.keys
      → get_elem? t.keys 0 ≡ some keys
      → new_request t.app_thread_id t.model_id
          (length (parts_of manager keys))
          (register_recv_finish_handle t.app_thread_id t.model_id recv_finish_handle b)
        ≡ some b2
      → get_ manager t b ≡ some (next_msgs 0 t, asked t, b2)
  asks_first t b b2 keys v start room at made =
      let t1 : SparseTable Val = record t { get_count = suc t.get_count } in
      let b1 = register_recv_finish_handle t.app_thread_id t.model_id recv_finish_handle b in
      let first : (suc t.get_count == 1) ≡ true = ap (λ k. suc k == 1) start in
      let empty : t.num_reqs ≡ [] =
        v.counted ∙ ap (λ k. counts manager (take (ahead t.speculation k) t.keys)) start in
      let all_sent : suc t.speculation ≡ suc (t.get_count + t.speculation) = omega (arith, start) in
      get_-branches manager t b v.paired (omega (arith, room, v.few))
      ∙ rw first
          (send_first manager t.speculation t1 b1 b2 keys v.sliceable (omega (arith, room)) at made)
      ∙ ap
          (λ msgs. some (
            msgs,
            record t1 { num_reqs = t.num_reqs ++ counts manager (take (suc t.speculation) t.keys) },
            b2,
          ))
          (gets-counts manager t t.num_reqs (suc t.get_count) 0 (take (suc t.speculation) t.keys))
      ∙ ap
          (λ nums. some (
            next_msgs 0 t,
            record t1 { num_reqs = nums ++ counts manager (take (suc t.speculation) t.keys) },
            b2,
          ))
          empty
      ∙ ap (λ k. some (next_msgs 0 t, record t1 { num_reqs = counts manager (take k t.keys) }, b2))
          all_sent

  -- The later Gets.
  asks_next :
      (g : ℕ) (t : SparseTable Val) (b b2 : AppBlocker (SparseClient Val)) (keys later : List ℕ)
      → Ready t b
      → t.get_count ≡ suc g
      → 0 < t.speculation
      → get_elem? t.keys (suc g) ≡ some keys
      → get_elem? t.keys (suc g + t.speculation) ≡ some later
      → suc g + t.speculation < length t.keys
      → new_request t.app_thread_id t.model_id
          (length (parts_of manager keys))
          (register_recv_finish_handle t.app_thread_id t.model_id recv_finish_handle b)
        ≡ some b2
      → get_ manager t b ≡ some (next_msgs (suc g) t, asked t, b2)
  asks_next g t b b2 keys later v count spec at at_later room made =
      let t1 : SparseTable Val = record t { get_count = suc t.get_count } in
      let b1 = register_recv_finish_handle t.app_thread_id t.model_id recv_finish_handle b in
      let i = suc g + t.speculation in
      let later_get : (suc t.get_count == 1) ≡ false = ap (λ k. suc k == 1) count ∙ ground arith in
      let sent : t.num_reqs ≡ counts manager (take i t.keys) =
        v.counted ∙ ap (λ k. counts manager (take (ahead t.speculation k) t.keys)) count in
      let expected : get_elem? t.num_reqs (suc g) ≡ some (length (parts_of manager keys)) =
        ap (λ nums. get_elem? nums (suc g)) sent
        ∙ get_elem?-map (λ ks. length (parts_of manager ks)) (take i t.keys) (suc g) keys
            (get_elem?-take t.keys (suc g) i (omega (arith, spec)) ∙ at) in
      let one : take 1 (drop i t.keys) ≡ later ∷ [] =
        ap (take 1) (drop-get_elem? t.keys i later at_later) in
      let nums : t.num_reqs ++ length (parts_of manager later) ∷ []
          ≡ counts manager (take (suc (t.get_count + t.speculation)) t.keys) =
        ap (λ n. n ++ length (parts_of manager later) ∷ []) sent
        ∙ sym (map-append (λ ks. length (parts_of manager ks)) (take i t.keys) (later ∷ []))
        ∙ ap (counts manager) (sym (take-get_elem? t.keys i later at_later))
        ∙ ap (λ k. counts manager (take (suc (k + t.speculation)) t.keys)) (sym count) in
      let msgs : clock t1 manager ++ send t1 false i (parts_of manager later)
          ≡ next_msgs (suc g) t =
        ap
          (λ k.
            clock (record t { get_count = suc k }) manager
            ++ send t1 false i (parts_of manager later))
          count
        ∙ ap (λ l. clock (record t { get_count = suc (suc g) }) manager ++ l)
            (sym (append-nil (send t1 false i (parts_of manager later)))
              ∙ gets-counts manager t t.num_reqs (suc t.get_count) i (later ∷ [])
              ∙ ap (gets manager t i) (sym one)) in
      get_-branches manager t b v.paired (omega (arith, room, v.few, count))
      ∙ rw later_get (
          send_next_lem manager (suc g) t1 b1 b2 keys later v.sliceable (ap suc count)
            (omega (arith, room, v.few)) expected at_later made)
      ∙ ap
          (λ l.
            some
              (l, record t1 { num_reqs = t.num_reqs ++ length (parts_of manager later) ∷ [] }, b2))
          msgs
      ∙ ap (λ n. some (next_msgs (suc g) t, record t1 { num_reqs = n }, b2)) nums

  -- With a speculation, and while the keys last, a Get that follows as many Adds as Gets sends its
  -- messages, and then waits for one reply for each part of the request of its own iteration, which may
  -- have been sent in an earlier call.
  pub get_-Waiting :
      (t : SparseTable Val) (b : AppBlocker (SparseClient Val)) (keys : List ℕ)
      → Ready t b
      → 0 < t.speculation
      → t.get_count + t.speculation < length t.keys
      → get_elem? t.keys t.get_count ≡ some keys
      → (b2 : AppBlocker (SparseClient Val)) × (get_ manager t b
          ≡ some (next_msgs t.get_count t, asked t, b2))
        × Waiting t (length (parts_of manager keys)) b2
  get_-Waiting t b keys v spec room at =
      let (b2, made, w2) = requested t (length (parts_of manager keys)) b v.registered in
      elim (zero_or_suc t.get_count) [
        | inl start ↦ (
          b2,
          subst (λ k. get_ manager t b ≡ some (next_msgs k t, asked t, b2)) (sym start)
              (asks_first t b b2 keys v start room (ap (get_elem? t.keys) (sym start) ∙ at) made),
          w2,
        )
        | inr (g, count) ↦
            let (later, at_later) =
              get_elem?-lt t.keys (suc g + t.speculation) (omega (arith, room, count)) in
            (
              b2,
              subst (λ k. get_ manager t b ≡ some (next_msgs k t, asked t, b2)) (sym count)
                  (asks_next g t b b2 keys later v count spec
                    (ap (get_elem? t.keys) (sym count) ∙ at) at_later (omega (arith, room, count))
                    made),
              w2,
            )
      ]

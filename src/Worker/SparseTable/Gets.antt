-- ===== src/Worker/SparseTable/Gets.antt =====
-- What a Get of a sparse table sends, and how many replies it then waits for.
use flexps.Base.{
  ℕ, zero, suc, ◌+◌, ◌%◌, ◌≤◌, ◌<◌, ◌≡◌, refl, sym, ap, List, [], ◌∷◌, ◌++◌, map, none, some, false,
  ◌==◌, length, get_elem?, take, drop, All, All-get_elem?, get_elem?-lt, drop-get_elem?, u32_mod,
  arith, append_assoc, append-nil,
}
use flexps.Message.{Message, Platform, Values}
use flexps.Worker.RangeManager.{SlicedKvs, AbstractPartitionManager}
use flexps.Worker.Blocker.{AppBlocker}
use flexps.Worker.SparseTable.{SparseTable, SparseClient, send, send_part, send_gets}

module _ (manager : AbstractPartitionManager) where
  -- The request for some keys can be cut into parts, fewer than 2^32.
  abbrev pub Sliceable : List ℕ → Type 0
  Sliceable keys =
      (sliced : SlicedKvs) × (manager.slice (record { keys = keys; vals = [] }) ≡ some sliced)
      × (length sliced < u32_mod)

  abbrev pub parts_of : List ℕ → SlicedKvs
  parts_of keys = elim (manager.slice (record { keys = keys; vals = [] })) [
    | none ↦ []
    | some sliced ↦ sliced
  ]

  pub parts_of-slice :
      (keys : List ℕ) (sliced : SlicedKvs)
      → manager.slice (record { keys = keys; vals = [] }) ≡ some sliced
      → parts_of keys ≡ sliced
  parts_of-slice keys sliced cut = rw (parts_of, cut) refl

  -- The number of parts of each of some requests.
  abbrev pub counts : List (List ℕ) → List ℕ
  counts requests = map (λ keys. length (parts_of keys)) requests

  module _ {Val : Type 0} ⦃p : Platform⦄ where
    -- The Gets of the iterations from `i` on.
    abbrev pub gets : SparseTable Val → ℕ → List (List ℕ) → List Message
    gets t i [] = []
    gets t i (keys ∷ requests) = send t false i (parts_of keys) ++ gets t (suc i) requests

  module _ {Val : Type 0} ⦃p : Platform⦄ ⦃w : Values Val⦄ where
    -- What is sent does not depend on the counts.
    pub gets-counts :
        (t : SparseTable Val) (nums : List ℕ) (g i : ℕ) (requests : List (List ℕ))
        → gets (record t { num_reqs = nums; get_count = g }) i requests ≡ gets t i requests
    unfolding send send_part
    gets-counts t nums g i [] = refl
    gets-counts t nums g i (keys ∷ requests) =
        ap (λ msgs. send t false i (parts_of keys) ++ msgs) (gets-counts t nums g (suc i) requests)

    -- The loop of the first Get, after its first round.
    pub send_gets_lem :
        (n i : ℕ) (t : SparseTable Val) (b : AppBlocker (SparseClient Val))
        → All Sliceable t.keys
        → suc i + n ≤ length t.keys
        → send_gets manager n (suc i) t b
          ≡ some (
            gets t (suc i) (take n (drop (suc i) t.keys)),
            record t { num_reqs = t.num_reqs ++ counts (take n (drop (suc i) t.keys)) },
            b,
          )
    unfolding send_gets
    send_gets_lem zero i t b h le = rw (append-nil t.num_reqs) refl
    send_gets_lem (suc n) i t b h le =
        let (keys, at) = get_elem?-lt t.keys (suc i) (omega (arith, le)) in
        go keys at (All-get_elem? Sliceable t.keys (suc i) keys h at)
          (λ nums. send_gets_lem n (suc i) (record t { num_reqs = nums }) b h (omega (arith, le)))
      where
        go :
            (keys : List ℕ)
            → get_elem? t.keys (suc i) ≡ some keys
            → Sliceable keys
            → ((nums : List ℕ)
                → send_gets manager n (suc (suc i)) (record t { num_reqs = nums }) b
                  ≡ some (
                    gets
                        (record t { num_reqs = nums })
                        (suc (suc i))
                        (take n (drop (suc (suc i)) t.keys)),
                    record t { num_reqs = nums ++ counts (take n (drop (suc (suc i)) t.keys)) },
                    b,
                  ))
            → send_gets manager (suc n) (suc i) t b
              ≡ some (
                gets t (suc i) (take (suc n) (drop (suc i) t.keys)),
                record t { num_reqs = t.num_reqs ++ counts (take (suc n) (drop (suc i) t.keys)) },
                b,
              )
        go keys at (sliced, cut, fits) rest =
            let whole : length sliced % u32_mod ≡ length sliced = omega (arith, fits) in
            let next : suc i + 1 ≡ suc (suc i) = omega arith in
            let later : ((suc i) == 0) ≡ false = ground arith in
            rw
              (
                drop-get_elem? t.keys (suc i) keys at,
                at,
                cut,
                whole,
                later,
                next,
                rest (t.num_reqs ++ length sliced ∷ []),
                append_assoc t.num_reqs (length sliced ∷ [])
                    (counts (take n (drop (suc (suc i)) t.keys))),
                gets-counts t (t.num_reqs ++ length sliced ∷ []) t.get_count (suc (suc i))
                    (take n (drop (suc (suc i)) t.keys)),
              )
              (ap
                (λ s. some (
                  send t false (suc i) s
                      ++ gets t (suc (suc i)) (take n (drop (suc (suc i)) t.keys)),
                  record t {
                    num_reqs =
                        t.num_reqs ++ (length s ∷ counts (take n (drop (suc (suc i)) t.keys)));
                  },
                  b,
                ))
                (sym (parts_of-slice keys sliced cut)))

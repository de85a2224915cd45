-- ===== src/Worker/SparseTable/Sends.antt =====
-- The Gets among the messages of a sparse table.
use flexps.Base.{
  ℕ, zero, suc, ◌+◌, ◌<◌, ◌≡◌, refl, sym, ap, ◌∙◌, List, [], ◌∷◌, ◌++◌, Bool, true, false, ◌==◌,
  if◌then◌else◌, length, get_elem?-lt, drop-get_elem?, take-get_elem?, length-take_le, take, drop,
  arith, append_assoc, Bool-cases, inl, inr,
}
use flexps.Message.{Message, Flag, Platform, Values}
use flexps.Worker.RangeManager.{KvPairs, SlicedKvs, AbstractPartitionManager}
use flexps.Worker.SparseTable.{SparseTable, send, send_part, clock}
use flexps.Worker.SparseTable.Gets.{parts_of, gets}
use flexps.Worker.SparseTable.Waits.{next_msgs, ahead}

abbrev pub is_get : Flag → Bool
is_get Flag.exit = false
is_get Flag.barrier = false
is_get Flag.reset_worker_in_model = false
is_get Flag.clock = false
is_get Flag.add = false
is_get Flag.get = true

-- The Gets among some messages, in their order.
abbrev pub gets_in : List Message → List Message
gets_in [] = []
gets_in (msg ∷ msgs) = let rest = gets_in msgs in if is_get msg.flag then msg ∷ rest else rest

pub gets_in-append : (xs ys : List Message) → gets_in (xs ++ ys) ≡ gets_in xs ++ gets_in ys
gets_in-append [] ys = refl
gets_in-append (x ∷ xs) ys = elim (Bool-cases (is_get x.flag)) [
  | inl reads ↦ rw (reads, gets_in-append xs ys) refl
  | inr other ↦ rw (other, gets_in-append xs ys) refl
]

module _ {Val : Type 0} ⦃p : Platform⦄ where
  send_part_flag :
      (t : SparseTable Val) (is_add : Bool) (version : ℕ) (part : ℕ × KvPairs ℕ)
      → (send_part t is_add version part).flag ≡ (if is_add then Flag.add else Flag.get)
  unfolding send_part
  send_part_flag t is_add version (id, kvs) = elim (Bool-cases (length kvs.keys == 0)) [
    | inl empty ↦ rw empty refl
    | inr full ↦ elim (Bool-cases is_add) [
      | inl adds ↦ rw (full, adds) refl
      | inr reads ↦ rw (full, reads) refl
    ]
  ]

  gets_in-send :
      (t : SparseTable Val) (version : ℕ) (sliced : SlicedKvs)
      → gets_in (send t false version sliced) ≡ send t false version sliced
  unfolding send
  gets_in-send t version [] = refl
  gets_in-send t version (part ∷ sliced) =
      rw (ap is_get (send_part_flag t false version part), gets_in-send t version sliced) refl

  pub gets_in-send_adds :
      (t : SparseTable Val) (version : ℕ) (sliced : SlicedKvs)
      → gets_in (send t true version sliced) ≡ []
  unfolding send
  gets_in-send_adds t version [] = refl
  gets_in-send_adds t version (part ∷ sliced) =
      rw (ap is_get (send_part_flag t true version part), gets_in-send_adds t version sliced) refl

  module _ (manager : AbstractPartitionManager) where
    gets_in-clock : (t : SparseTable Val) → gets_in (clock t manager) ≡ []
    unfolding clock
    gets_in-clock t = go manager.server_thread_ids
      where
        go : (ids : List ℕ) → gets_in (clock t (record manager { server_thread_ids = ids })) ≡ []
        go [] = refl
        go (id ∷ ids) = go ids

    gets_in-gets :
        (t : SparseTable Val) (i : ℕ) (requests : List (List ℕ))
        → gets_in (gets manager t i requests) ≡ gets manager t i requests
    gets_in-gets t i [] = refl
    gets_in-gets t i (keys ∷ requests) =
        gets_in-append (send t false i (parts_of manager keys)) (gets manager t (suc i) requests)
        ∙ rw (gets_in-send t i (parts_of manager keys), gets_in-gets t (suc i) requests) refl

    gets-append :
        (t : SparseTable Val) (i : ℕ) (xs ys : List (List ℕ))
        → gets manager t i (xs ++ ys) ≡ gets manager t i xs ++ gets manager t (i + length xs) ys
    gets-append t i [] ys = ap (λ k. gets manager t k ys) (omega arith)
    gets-append t i (keys ∷ xs) ys =
        ap (λ l. send t false i (parts_of manager keys) ++ l) (gets-append t (suc i) xs ys)
        ∙ sym (
            append_assoc (send t false i (parts_of manager keys)) (gets manager t (suc i) xs)
              (gets manager t (suc i + length xs) ys))
        ∙ ap
            (λ k.
              (send t false i (parts_of manager keys) ++ gets manager t (suc i) xs)
              ++ gets manager t k ys)
            {x = suc i + length xs} (omega arith)

    -- What is sent depends on none of the counts, and not on the replies.
    pub gets-state :
        (t : SparseTable Val) (kvs : List (KvPairs Val)) (nums : List ℕ) (g a i : ℕ)
        (requests : List (List ℕ))
        → gets manager
            (record t { recv_kvs = kvs; num_reqs = nums; get_count = g; add_count = a })
            i
            requests
          ≡ gets manager t i requests
    unfolding send send_part
    gets-state t kvs nums g a i [] = refl
    gets-state t kvs nums g a i (keys ∷ requests) =
        ap (λ msgs. send t false i (parts_of manager keys) ++ msgs)
          (gets-state t kvs nums g a (suc i) requests)

module _ {Val : Type 0} ⦃p : Platform⦄ ⦃w : Values Val⦄ (manager : AbstractPartitionManager) where
  -- After the Gets of earlier calls, the next call of `Get_` sends those that lead up to `speculation`
  -- iterations ahead.
  pub next_msgs_lem :
      (g : ℕ) (t : SparseTable Val)
      → g + t.speculation < length t.keys
      → gets manager t 0 (take (ahead t.speculation g) t.keys) ++ gets_in (next_msgs manager g t)
        ≡ gets manager t 0 (take (suc g + t.speculation) t.keys)
  next_msgs_lem zero t room =
      gets_in-gets manager t 0 (take (suc t.speculation) t.keys)
      ∙ ap (λ k. gets manager t 0 (take k t.keys)) {x = suc t.speculation} (omega arith)
  next_msgs_lem (suc g) t room =
      let i = suc g + t.speculation in
      let (keys, at) = get_elem?-lt t.keys i (omega (arith, room)) in
      let before = take i t.keys in
      let one : take 1 (drop i t.keys) ≡ keys ∷ [] =
        ap (take 1) (drop-get_elem? t.keys i keys at) in
      let many : 0 + length before ≡ i =
        omega (arith, length-take_le i t.keys (omega (arith, room))) in
      let next : gets_in (next_msgs manager (suc g) t) ≡ gets manager t i (keys ∷ []) =
        gets_in-append (clock (record t { get_count = suc (suc g) }) manager)
          (gets manager t i (take 1 (drop i t.keys)))
        ∙ ap (λ l. l ++ gets_in (gets manager t i (take 1 (drop i t.keys))))
            (gets_in-clock manager (record t { get_count = suc (suc g) }))
        ∙ gets_in-gets manager t i (take 1 (drop i t.keys))
        ∙ ap (gets manager t i) one in
      ap (λ l. gets manager t 0 before ++ l) next
      ∙ ap (λ k. gets manager t 0 before ++ gets manager t k (keys ∷ [])) (sym many)
      ∙ sym (gets-append manager t 0 before (keys ∷ []))
      ∙ ap (gets manager t 0) (sym (take-get_elem? t.keys i keys at))
      ∙ ap (λ k. gets manager t 0 (take k t.keys)) {x = suc i} (omega arith)

-- ===== src/Worker/SparseTable/Bounds.antt =====
-- A new sparse table, and what becomes of it without a speculation.
use flexps.Base.{
  ℕ, suc, ◌++◌, ◌∷◌, ◌≤◌, ◌<◌, ◌≡◌, refl, ap, ◌∙◌, List, [], All-get_elem?, get_elem?-lt, none,
  some, true, false, ◌==◌, leb, ==_refl, length, get_elem?, take, All, u32_mod, arith, add_u32,
  false, ◌%◌, sub_u32,
}
use flexps.Message.{Message, Platform, Values}
use flexps.Worker.RangeManager.{AbstractPartitionManager}
use flexps.Worker.Blocker.{AppBlocker, register_recv_handle, register_recv_finish_handle, put2}
use flexps.Worker.Blocker.Responses.{find2-put2}
use flexps.Worker.SparseTable.{
  clock, send, SparseTable, SparseClient, recv_handle, recv_finish_handle, make, setup, send_next,
  get_,
}
use flexps.Worker.SparseTable.Gets.{Sliceable, counts}
use flexps.Worker.SparseTable.Requests.{get_-branches, requested}
use flexps.Worker.SparseTable.Waits.{ahead, Ready}

none_past {ℓ} : {A : Type ℓ} (xs : List A) → length xs ≡ 1 → get_elem? xs 1 ≡ none
none_past [] h = refl
none_past (x ∷ []) h = refl
none_past (x ∷ y ∷ xs) h = absurd (omega (arith, h))

past_one {ℓ} :
    {A : Type ℓ} (xs : List A) (x : A) → length xs ≡ 1 → get_elem? (xs ++ x ∷ []) 1 ≡ some x
past_one [] x h = absurd (omega (arith, h))
past_one (y ∷ []) x h = refl
past_one (y ∷ z ∷ xs) x h = absurd (omega (arith, h))

length-counts-take :
    (manager : AbstractPartitionManager) (keys : List (List ℕ))
    → 1 < length keys
    → length (counts manager (take 1 keys)) ≡ 1
length-counts-take manager [] h = absurd (omega (arith, h))
length-counts-take manager (ks ∷ keys) h = refl

module _ {Val : Type 0} ⦃p : Platform⦄ ⦃w : Values Val⦄ (manager : AbstractPartitionManager) where
  -- The second Get of a table without a speculation, where `num_reqs_` has these entries.
  second_get :
      (nums : List ℕ) (t : SparseTable Val) (b : AppBlocker (SparseClient Val))
      → t.add_count ≡ t.get_count
      → t.get_count ≡ 1
      → get_ manager (record t { num_reqs = nums }) b
        ≡ send_next manager
            (record t { num_reqs = nums; get_count = 2 })
            (register_recv_finish_handle t.app_thread_id t.model_id recv_finish_handle b)
  second_get nums t b paired count =
      let later : (suc t.get_count == 1) ≡ false = ap (λ k. suc k == 1) count ∙ refl in
      get_-branches manager (record t { num_reqs = nums }) b paired (omega (arith, count))
      ∙ rw later (
          ap
            (λ k.
              send_next manager (record t { num_reqs = nums; get_count = suc k })
                (register_recv_finish_handle t.app_thread_id t.model_id recv_finish_handle b))
            count)

  -- From a table between two rounds, without a speculation, after one Get, and while keys last, the
  -- second Get fails on the entry 1 of `num_reqs_`: the vector has one entry then, and with any second
  -- entry the same Get succeeds.
  pub get_-no_speculation :
      (t : SparseTable Val) (b : AppBlocker (SparseClient Val))
      → Ready manager t b
      → t.speculation ≡ 0
      → t.get_count ≡ 1
      → 1 < length t.keys
      → (length t.num_reqs ≡ 1)
        × (get_ manager t b ≡ none)
        × ((n : ℕ)
            → (msgs : List Message) × (t' : SparseTable Val) × (b' : AppBlocker (SparseClient Val))
              × (get_ manager (record t { num_reqs = t.num_reqs ++ n ∷ [] }) b
                  ≡ some (msgs, t', b')))
  unfolding send_next sub_u32 add_u32
  get_-no_speculation t b v none_ahead count room =
      let one : length t.num_reqs ≡ 1 =
        ap length v.counted
        ∙ ap (λ k. length (counts manager (take (ahead t.speculation k) t.keys))) count
        ∙ ap (λ k. length (counts manager (take (ahead k 1) t.keys))) none_ahead
        ∙ length-counts-take manager t.keys room in
      let missing : get_elem? t.num_reqs 1 ≡ none = none_past t.num_reqs one in
      let next : add_u32 1 t.speculation ≡ 1 = ap (add_u32 1) none_ahead in
      let (keys, at) = get_elem?-lt t.keys 1 room in
      let (sliced, cut, few) = All-get_elem? (Sliceable manager) t.keys 1 keys v.sliceable at in
      (
        one,
        second_get t.num_reqs t b v.paired count ∙ rw missing refl,
        λ n.
            let (b2, made, _) = requested t n b v.registered in
            let nums = t.num_reqs ++ n ∷ [] in
            let t2 : SparseTable Val = record t { num_reqs = nums; get_count = 2 } in
            (
              clock t2 manager ++ send t2 false 1 sliced,
              record t2 { num_reqs = nums ++ (length sliced % u32_mod) ∷ [] },
              b2,
              second_get nums t b v.paired count
                  ∙ rw (past_one t.num_reqs n one, made, next, at, cut) refl,
            ),
      )

  -- A table before its first Get.
  abbrev pub fresh : ℕ → ℕ → ℕ → List (List ℕ) → SparseTable Val
  fresh app_thread_id model_id speculation keys = record {
    app_thread_id = app_thread_id;
    model_id = model_id;
    recv_kvs = [];
    speculation = speculation;
    keys = keys;
    num_reqs = [];
    get_count = 0;
    add_count = 0;
  }

  -- A new table is ready.
  pub make-Ready :
      (app_thread_id model_id speculation : ℕ) (keys : List (List ℕ))
      (b : AppBlocker (SparseClient Val))
      → speculation ≤ 50
      → All (Sliceable manager) keys
      → length keys < u32_mod
      → (b' : AppBlocker (SparseClient Val)) × (make app_thread_id model_id speculation keys b
          ≡ some (fresh app_thread_id model_id speculation keys, b'))
        × Ready manager (fresh app_thread_id model_id speculation keys) b'
  unfolding make setup register_recv_handle
  make-Ready a m speculation keys b small all few =
      let accepted : leb speculation 50 ≡ true = ground (arith, small) in
      (
        record b { recv_handle = put2 a m recv_handle b.recv_handle },
        rw accepted refl,
        record {
          paired = refl;
          counted = refl;
          box_empty = refl;
          registered =
              find2-put2 a m a m recv_handle b.recv_handle ∙ rw (==_refl a, ==_refl m) refl;
          sliceable = all;
          few = few;
        },
      )

-- ===== src/Worker/SimpleTable/Gets.antt =====
-- A Get of a simple table, from the slices to the values.
use flexps.Base.{
  ℕ, ◌+◌, ◌%◌, ◌<◌, ◌≡◌, refl, sym, ap, ◌∙◌, List, [], ◌∷◌, ◌++◌, some, true, false, ltb, ◌==◌,
  length, add_u32, add_u32_exact, u32_mod, arith, append_assoc, >>=-eq-some, ne→==, ==_refl,
}
use flexps.Message.{Message, ThreadsafeQueue, Platform, Values}
use flexps.Worker.RangeManager.{KvPairs, SlicedKvs, AbstractPartitionManager}
use flexps.Worker.TableBox.{TableBox, send, handle_msg, handle_finish, received, concat_vals}
use flexps.Worker.TableBox.Replies.{Covers, handle_finish-Covers, received_all}
use flexps.Worker.SimpleTable.{SimpleTable, wait, get_}

module _ {Val : Type 0} ⦃p : Platform⦄ ⦃w : Values Val⦄ where
  -- The end of the loop: nothing is expected any more.
  abbrev idle : ThreadsafeQueue Message → TableBox Val → SimpleTable Val → SimpleTable Val
  idle rest box t = record t {
    current_responses = 0;
    expected_responses = 0;
    recv_queue = rest;
    kv_table_box = box;
  }

  wait-idle :
      (keys : List ℕ) (rest : ThreadsafeQueue Message) (vals : List Val) (box : TableBox Val)
      (t : SimpleTable Val)
      → wait keys rest vals
          (record t { current_responses = 0; expected_responses = 0; kv_table_box = box })
        ≡ some (vals, idle rest box t)
  unfolding wait
  wait-idle keys [] vals box t = refl
  wait-idle keys (msg ∷ rest) vals box t = refl

  -- The box once it holds some more replies.
  abbrev with_replies : List (KvPairs Val) → TableBox Val → TableBox Val
  with_replies kvs box = record box { recv_kvs = box.recv_kvs ++ kvs }

  wait_lem :
      (keys : List ℕ) (msg : Message) (msgs rest : List Message) (kvs : List (KvPairs Val))
      (vals vals' : List Val) (box : TableBox Val) (t : SimpleTable Val)
      → t.expected_responses < u32_mod
      → t.current_responses + length (msg ∷ msgs) ≡ t.expected_responses
      → received_all (msg ∷ msgs) ≡ some kvs
      → handle_finish keys (with_replies kvs t.kv_table_box) ≡ some (vals', box)
      → wait keys (msg ∷ (msgs ++ rest)) vals t ≡ some (vals', idle rest box t)
  unfolding wait handle_msg
  wait_lem keys msg [] rest kvs vals vals' box t fits n e f =
      let (kv, got, e1) = >>=-eq-some (received msg.body) _ e in
      let next : add_u32 t.current_responses 1 ≡ t.expected_responses =
        add_u32_exact t.current_responses 1 (omega (arith, n, fits)) ∙ omega (arith, n) in
      let goes_on : ltb t.current_responses t.expected_responses ≡ true = ground (arith, n) in
      let done : handle_finish keys (with_replies (kv ∷ []) t.kv_table_box) ≡ some (vals', box) =
        ground (arith, f) in
      rw (wait, goes_on, got, next, ==_refl t.expected_responses, done)
        (wait-idle keys rest vals' box t)
  wait_lem keys msg (x ∷ msgs) rest kvs vals vals' box t fits n e f =
      let (kv, got, e1) = >>=-eq-some (received msg.body) _ e in
      let (kvs', got', e2) = >>=-eq-some (received_all (x ∷ msgs)) _ e1 in
      let next : add_u32 t.current_responses 1 ≡ t.current_responses + 1 =
        add_u32_exact t.current_responses 1 (omega (arith, n, fits)) in
      let early : (add_u32 t.current_responses 1 == t.expected_responses) ≡ false =
        ne→== (add_u32 t.current_responses 1) t.expected_responses (omega (arith, next, n)) in
      let goes_on : ltb t.current_responses t.expected_responses ≡ true = ground (arith, n) in
      let shape : kvs ≡ kv ∷ kvs' = ground arith in
      let regroup : (t.kv_table_box.recv_kvs ++ kv ∷ []) ++ kvs' ≡ t.kv_table_box.recv_kvs ++ kvs =
        append_assoc t.kv_table_box.recv_kvs (kv ∷ []) kvs'
        ∙ ap (λ ys. t.kv_table_box.recv_kvs ++ ys) (sym shape) in
      rw (wait, goes_on, got, early)
        (wait_lem keys x msgs rest kvs' vals vals' box
          (record t {
            current_responses = add_u32 t.current_responses 1;
            kv_table_box = with_replies (kv ∷ []) t.kv_table_box;
          })
          fits (omega (arith, next, n)) got'
          (ap (λ ys. handle_finish keys (record t.kv_table_box { recv_kvs = ys })) regroup ∙ f))

  -- A Get whose replies, one for each part and fewer than 2^32, come first in the queue, in any
  -- order, sends its parts and leaves the values of the parts in the order of the keys. It takes
  -- those replies from the queue and no more.
  pub get_-Covers :
      (manager : AbstractPartitionManager) (keys : List ℕ) (vals : List Val) (t : SimpleTable Val)
      (sliced : SlicedKvs) (msg : Message) (msgs rest : List Message)
      (parts kvs : List (KvPairs Val))
      → manager.slice (record { keys = keys; vals = [] }) ≡ some sliced
      → length sliced < u32_mod
      → length (msg ∷ msgs) ≡ length sliced
      → t.recv_queue ≡ msg ∷ (msgs ++ rest)
      → t.kv_table_box.recv_kvs ≡ []
      → received_all (msg ∷ msgs) ≡ some kvs
      → Covers keys parts kvs
      → get_ manager keys vals t
        ≡ some (
          send t.kv_table_box false sliced,
          concat_vals parts,
          idle rest (record t.kv_table_box { recv_kvs = [] }) t,
        )
  unfolding get_
  get_-Covers manager keys vals t sliced msg msgs rest parts kvs cut fits n queue fresh got v =
      let whole : length sliced % u32_mod ≡ length sliced = omega (arith, fits) in
      let start : SimpleTable Val = record t {
        current_responses = 0;
        expected_responses = length sliced;
        recv_queue = msg ∷ (msgs ++ rest);
      } in
      let done : handle_finish keys (with_replies kvs t.kv_table_box)
          ≡ some (concat_vals parts, record t.kv_table_box { recv_kvs = [] }) =
        rw fresh (handle_finish-Covers (record t.kv_table_box { recv_kvs = kvs }) keys parts v) in
      rw (
        cut,
        whole,
        queue,
        wait_lem keys msg msgs rest kvs vals (concat_vals parts)
            (record t.kv_table_box { recv_kvs = [] }) start fits (omega (arith, n)) got done,
      )

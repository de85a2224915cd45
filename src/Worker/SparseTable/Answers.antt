-- ===== src/Worker/SparseTable/Answers.antt =====
-- The values of a Get of a sparse table.
use flexps.Base.{
  ℕ, suc, ◌+◌, ◌<◌, ◌≡◌, refl, sym, ap, ◌∙◌, List, [], ◌∷◌, ◌++◌, some, true, false, ◌==◌, length,
  get_elem?, All-get_elem?, sub_u32, sub_u32_exact, u32_mod, arith, append_assoc, append-nil,
  ==_refl, >>=-eq-some,
}
use mathlib.Core.List.{Permᴰ}
use flexps.Message.{Message, Platform, Values}
use flexps.Worker.RangeManager.{KvPairs, AbstractPartitionManager}
use flexps.Worker.Blocker.{AppBlocker, wait_request}
use flexps.Worker.Blocker.Responses.{
  wait_request-Awaits, add_responses, add_responses-Awaits, handle_all,
}
use flexps.Worker.TableBox.{received, concat_vals}
use flexps.Worker.TableBox.Sorting.{Perm-All, count_keys, count_keys-Perm}
use flexps.Worker.TableBox.Replies.{
  concat_keys, HaveKeys, count_keys-concat, sort-parts, received_all,
}
use flexps.Worker.TableBox.Keys.{Rising}
use flexps.Worker.SparseTable.{
  SparseTable, SparseClient, recv_handle, recv_finish_handle, key_count, all_have_keys, can_sort,
  get_,
}
use flexps.Worker.SparseTable.Gets.{Sliceable, parts_of, parts_of-slice}
use flexps.Worker.SparseTable.Waits.{Ready, next_msgs, asked, get_-Waiting}

-- The replies `kvs` to the parts of a request of `keys`, in any order.
pub record Answers {Val : Type 0} (keys : List ℕ) (parts kvs : List (KvPairs Val)) : Type 0 where
  pub cut : concat_keys parts ≡ keys
  pub rising : Rising keys
  pub have_keys : HaveKeys parts
  pub any_order : Permᴰ parts kvs

module _ {Val : Type 0} where
  key_count-count_keys : (kvs : List (KvPairs Val)) → key_count kvs ≡ count_keys kvs
  key_count-count_keys [] = refl
  key_count-count_keys (s ∷ kvs) = omega (arith, key_count-count_keys kvs)

  all_have_keys-HaveKeys : (kvs : List (KvPairs Val)) → HaveKeys kvs → all_have_keys kvs ≡ true
  all_have_keys-HaveKeys [] h = refl
  all_have_keys-HaveKeys (s ∷ kvs) h = ground (arith, h.0, all_have_keys-HaveKeys kvs h.1)

  can_sort-HaveKeys : (kvs : List (KvPairs Val)) → HaveKeys kvs → can_sort kvs ≡ true
  can_sort-HaveKeys [] h = refl
  can_sort-HaveKeys (s ∷ []) h = refl
  can_sort-HaveKeys (s ∷ t ∷ kvs) h = all_have_keys-HaveKeys (s ∷ t ∷ kvs) h

  recv_finish_handle-Answers :
      (c : SparseClient Val) (keys : List ℕ) (parts : List (KvPairs Val))
      → get_elem? c.table.keys (sub_u32 c.table.get_count 1) ≡ some keys
      → Answers keys parts c.table.recv_kvs
      → recv_finish_handle c
        ≡ some (record { table = record c.table { recv_kvs = [] }; vals = concat_vals parts })
  unfolding recv_finish_handle
  recv_finish_handle-Answers c keys parts at v =
      let kvs = c.table.recv_kvs in
      let total : key_count kvs ≡ length keys =
        key_count-count_keys kvs
        ∙ sym (count_keys-Perm parts kvs v.any_order)
        ∙ count_keys-concat parts
        ∙ ap length v.cut in
      let sortable =
        can_sort-HaveKeys kvs
          (Perm-All (λ s. 0 < length s.keys) parts kvs v.any_order v.have_keys) in
      let in_order = sort-parts parts kvs v.have_keys (rw v.cut v.rising) v.any_order in
      rw (at, total, ==_refl (length keys), sortable, in_order) refl

module _ {Val : Type 0} ⦃p : Platform⦄ ⦃w : Values Val⦄ where
  handle_all_lem :
      (msgs : List Message) (kvs : List (KvPairs Val)) (c : SparseClient Val)
      → received_all msgs ≡ some kvs
      → handle_all recv_handle msgs c
        ≡ some (record c { table = record c.table { recv_kvs = c.table.recv_kvs ++ kvs } })
  unfolding recv_handle
  handle_all_lem [] kvs c e =
      let shape : kvs ≡ [] = ground arith in rw (shape, append-nil c.table.recv_kvs)
  handle_all_lem (msg ∷ msgs) kvs c e =
      let (kv, got, e1) = >>=-eq-some (received msg.body) _ e in
      let (kvs', got', e2) = >>=-eq-some (received_all msgs) _ e1 in
      let shape : kvs ≡ kv ∷ kvs' = ground arith in
      rw (
        got,
        handle_all_lem msgs kvs'
            (record c { table = record c.table { recv_kvs = c.table.recv_kvs ++ kv ∷ [] } }) got',
        append_assoc c.table.recv_kvs (kv ∷ []) kvs',
        shape,
      )

  -- With a speculation, and while the keys last, a Get that follows as many Adds as Gets sends its
  -- messages and waits. Once the replies to the request of its iteration have come, one for each part,
  -- in any order, the caller's vector holds the values of the parts in the order of the keys, which
  -- rise, no reply is left in the table, and the wait is over.
  pub get_-Answered :
      (manager : AbstractPartitionManager) (t : SparseTable Val) (b : AppBlocker (SparseClient Val))
      (keys : List ℕ) (msg : Message) (msgs : List Message) (parts kvs : List (KvPairs Val))
      (vals : List Val)
      → Ready manager t b
      → 0 < t.speculation
      → t.get_count + t.speculation < length t.keys
      → get_elem? t.keys t.get_count ≡ some keys
      → length (msg ∷ msgs) ≡ length (parts_of manager keys)
      → received_all (msg ∷ msgs) ≡ some kvs
      → Answers keys parts kvs
      → (b2 : AppBlocker (SparseClient Val)) × (b3 : AppBlocker (SparseClient Val)) × (get_ manager
            t b
          ≡ some (next_msgs manager t.get_count t, asked manager t, b2))
        × (wait_request t.app_thread_id t.model_id b2 ≡ some false)
        × (add_responses t.app_thread_id t.model_id
              (msg ∷ msgs)
              b2
              (record { table = asked manager t; vals = vals })
            ≡ some (
              b3,
              record {
                table = record (asked manager t) { recv_kvs = [] };
                vals = concat_vals parts;
              },
            ))
        × (wait_request t.app_thread_id t.model_id b3 ≡ some true)
  get_-Answered manager t b keys msg msgs parts kvs vals v spec room at n got answers =
      let a = t.app_thread_id in
      let m = t.model_id in
      let (b2, made, w2) = get_-Waiting manager t b keys v spec room at in
      let count = length (parts_of manager keys) in
      let (sliced, cut, few) =
        All-get_elem? (Sliceable manager) t.keys t.get_count keys v.sliceable at in
      let fits : count < u32_mod = rw (parts_of-slice manager keys sliced cut) few in
      let c : SparseClient Val = record { table = asked manager t; vals = vals } in
      let full : SparseClient Val = record {
        table = record (asked manager t) { recv_kvs = kvs };
        vals = vals;
      } in
      let (b3, ran, over) =
        add_responses-Awaits a m recv_handle recv_finish_handle count msg msgs b2 c fits
          (omega (arith, n)) w2 in
      let handled : handle_all recv_handle (msg ∷ msgs) c ≡ some full =
        handle_all_lem (msg ∷ msgs) kvs c got
        ∙ ap (λ l. some (record c { table = record (asked manager t) { recv_kvs = l ++ kvs } }))
            v.box_empty in
      let own : sub_u32 (suc t.get_count) 1 ≡ t.get_count =
        sub_u32_exact (suc t.get_count) 1 (omega (arith, room, v.few)) (omega arith)
        ∙ omega arith in
      let finished =
        recv_finish_handle-Answers full keys parts (ap (get_elem? t.keys) own ∙ at) answers in
      let all : (count == length (msg ∷ msgs)) ≡ true = rw n (==_refl count) in
      (
        b2,
        b3,
        made,
        wait_request-Awaits a m recv_handle recv_finish_handle count 0 b2 w2 ∙ ground (arith, n),
        ran ∙ rw (handled, all, finished) refl,
        over ∙ ap some all,
      )

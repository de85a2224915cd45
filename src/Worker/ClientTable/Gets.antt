-- ===== src/Worker/ClientTable/Gets.antt =====
-- A Get of a client table, from its slices to the end of the wait.
use flexps.Base.{
  ℕ, ◌%◌, ◌<◌, ◌≡◌, refl, ap, ◌∙◌, List, [], ◌∷◌, ◌++◌, some, true, false, ◌==◌, length, u32_mod,
  arith, append_assoc, append-nil, >>=-eq-some, ==_refl,
}
use flexps.Message.{Message, Platform, Values}
use flexps.Worker.RangeManager.{KvPairs, SlicedKvs, AbstractPartitionManager}
use flexps.Worker.Blocker.{
  AppBlocker, find2, tracked, wait_request, register_recv_handle, register_recv_finish_handle,
}
use flexps.Worker.Blocker.Responses.{
  Awaits, find2-put2, new_request-Awaits, wait_request-Awaits, add_responses, add_responses-Awaits,
  handle_all,
}
use flexps.Worker.TableBox.{TableBox, send, handle_msg, received, concat_vals}
use flexps.Worker.TableBox.Replies.{Covers, handle_finish-Covers, received_all}
use flexps.Worker.ClientTable.{Client, recv_handle, recv_finish_handle, make, get_}

module _ {Val : Type 0} ⦃p : Platform⦄ ⦃w : Values Val⦄ where
  -- The receive handle of the table is registered.
  abbrev pub Registered : TableBox Val → AppBlocker (Client Val) → Type 0
  Registered box b = find2 box.app_thread_id box.model_id b.recv_handle ≡ some recv_handle

  pub make-Registered :
      (box : TableBox Val) (b : AppBlocker (Client Val)) → Registered box (make box b)
  unfolding make register_recv_handle
  make-Registered box b =
      find2-put2 box.app_thread_id box.model_id box.app_thread_id box.model_id recv_handle
        b.recv_handle
      ∙ rw (==_refl box.app_thread_id, ==_refl box.model_id)

  handle_all_lem :
      (msgs : List Message) (kvs : List (KvPairs Val)) (c : Client Val)
      → received_all msgs ≡ some kvs
      → handle_all recv_handle msgs c
        ≡ some (record c {
          kv_table_box = record c.kv_table_box { recv_kvs = c.kv_table_box.recv_kvs ++ kvs };
        })
  unfolding handle_msg
  handle_all_lem [] kvs c e =
      let shape : kvs ≡ [] = ground arith in rw (shape, append-nil c.kv_table_box.recv_kvs)
  handle_all_lem (msg ∷ msgs) kvs c e =
      let (kv, got, e1) = >>=-eq-some (received msg.body) _ e in
      let (kvs', got', e2) = >>=-eq-some (received_all msgs) _ e1 in
      let shape : kvs ≡ kv ∷ kvs' = ground arith in
      rw (
        got,
        handle_all_lem msgs kvs'
            (record c {
              kv_table_box = record c.kv_table_box {
                recv_kvs = c.kv_table_box.recv_kvs ++ kv ∷ [];
              };
            })
            got',
        append_assoc c.kv_table_box.recv_kvs (kv ∷ []) kvs',
        shape,
      )

  -- The request of `Get_` is awaited once it has been sent.
  sent :
      (manager : AbstractPartitionManager) (keys : List ℕ) (box : TableBox Val)
      (b : AppBlocker (Client Val)) (sliced : SlicedKvs)
      → Registered box b
      → manager.slice (record { keys = keys; vals = [] }) ≡ some sliced
      → length sliced < u32_mod
      → (b2 : AppBlocker (Client Val)) × (get_ manager keys box b
          ≡ some (send box false sliced, b2))
        × Awaits box.app_thread_id box.model_id recv_handle
            (recv_finish_handle keys)
            (length sliced)
            0
            b2
  unfolding get_ register_recv_finish_handle
  sent manager keys box b sliced reg cut fits =
      let a = box.app_thread_id in
      let m = box.model_id in
      let b1 = register_recv_finish_handle a m (recv_finish_handle keys) b in
      let w1 : Awaits a m recv_handle (recv_finish_handle keys) (tracked a m b1).0
          (tracked a m b1).1 b1 =
        record {
          handled = reg;
          finished =
              find2-put2 a m a m (recv_finish_handle keys) b.recv_finish_handle
              ∙ rw (==_refl a, ==_refl m);
          counted = refl;
        } in
      let (b2, made, w2) =
        new_request-Awaits a m recv_handle (recv_finish_handle keys) (length sliced)
          (tracked a m b1).1 (tracked a m b1).0 b1 w1 in
      let whole : length sliced % u32_mod ≡ length sliced = omega (arith, fits) in
      (b2, rw (cut, whole, made), w2)

  -- A Get of a registered table sends its parts and waits. Once its replies have come, one for each
  -- part and fewer than 2^32, in any order, the caller's vector holds the values of the parts in the
  -- order of the keys, the box holds no reply, and the wait is over.
  pub get_-Awaited :
      (manager : AbstractPartitionManager) (keys : List ℕ) (box : TableBox Val)
      (b : AppBlocker (Client Val)) (sliced : SlicedKvs) (msg : Message) (msgs : List Message)
      (parts kvs : List (KvPairs Val)) (vals : List Val)
      → Registered box b
      → manager.slice (record { keys = keys; vals = [] }) ≡ some sliced
      → length sliced < u32_mod
      → length (msg ∷ msgs) ≡ length sliced
      → box.recv_kvs ≡ []
      → received_all (msg ∷ msgs) ≡ some kvs
      → Covers keys parts kvs
      → (b2 : AppBlocker (Client Val)) × (b3 : AppBlocker (Client Val)) × (get_ manager keys box b
          ≡ some (send box false sliced, b2))
        × (wait_request box.app_thread_id box.model_id b2 ≡ some false)
        × (add_responses box.app_thread_id box.model_id
              (msg ∷ msgs)
              b2
              (record { kv_table_box = box; vals = vals })
            ≡ some (
              b3,
              record { kv_table_box = record box { recv_kvs = [] }; vals = concat_vals parts },
            ))
        × (wait_request box.app_thread_id box.model_id b3 ≡ some true)
  get_-Awaited manager keys box b sliced msg msgs parts kvs vals reg cut fits n fresh got v =
      let a = box.app_thread_id in
      let m = box.model_id in
      let c : Client Val = record { kv_table_box = box; vals = vals } in
      let (b2, made, w2) = sent manager keys box b sliced reg cut fits in
      let (b3, ran, over) =
        add_responses-Awaits a m recv_handle (recv_finish_handle keys) (length sliced) msg msgs b2 c
          fits (omega (arith, n)) w2 in
      let handled = handle_all_lem (msg ∷ msgs) kvs c got in
      let finished = handle_finish-Covers (record box { recv_kvs = kvs }) keys parts v in
      let all : (length sliced == length (msg ∷ msgs)) ≡ true = rw n (==_refl (length sliced)) in
      (
        b2,
        b3,
        made,
        wait_request-Awaits a m recv_handle (recv_finish_handle keys) (length sliced) 0 b2 w2
            ∙ ground (arith, n),
        ran ∙ rw (handled, all, fresh, finished),
        over ∙ ap some all,
      )

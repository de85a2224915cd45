-- ===== src/Worker/SparseTable.antt =====
-- worker/sparse_kv_client_table.hpp: a table that knows the keys of all its Gets from the start, and
-- sends each Get `speculation` rounds before its values are asked for. The messages that it pushes to
-- the downstream queue are answers of its functions; `none` is a failed CHECK or a read out of bounds.
pub mod Gets
pub mod Requests
pub mod Bounds
pub mod Waits
pub mod Answers
pub mod Sends
pub mod Rounds
use flexps.Base.{
  ℕ, zero, suc, ◌+◌, ◌%◌, List, [], ◌∷◌, ◌++◌, map, Option, none, some, Bool, true, false, not,
  ◌&&◌, leb, ◌==◌, if◌then◌else◌, ◌>>=◌, ◌>>◌, check, length, get_elem?, add_u32, sub_u32, u32_mod,
}
use flexps.Message.{Flag, Message, add_data, Platform, Values}
use flexps.Worker.RangeManager.{KvPairs, SlicedKvs, AbstractPartitionManager}
use flexps.Worker.Blocker.{
  AppBlocker, register_recv_handle, register_recv_finish_handle, new_request,
}
use flexps.Worker.TableBox.{received, sort, concat_vals}

pub record SparseTable (Val : Type 0) : Type 0 where
  pub app_thread_id : ℕ
  pub model_id : ℕ
  pub recv_kvs : List (KvPairs Val)
  pub speculation : ℕ
  pub keys : List (List ℕ)
  pub num_reqs : List ℕ
  pub get_count : ℕ
  pub add_count : ℕ

-- What the callbacks can change: the table, and the vector of the Get that waits.
pub record SparseClient (Val : Type 0) : Type 0 where
  pub table : SparseTable Val
  pub vals : List Val

module _ {Val : Type 0} where
  -- The number of keys that the finish handle counts.
  abbrev pub key_count : List (KvPairs Val) → ℕ
  key_count [] = 0
  key_count (s ∷ parts) = length s.keys + key_count parts

  abbrev pub all_have_keys : List (KvPairs Val) → Bool
  all_have_keys [] = true
  all_have_keys (s ∷ parts) = not (length s.keys == 0) && all_have_keys parts

  -- Whether `std::sort` can compare the first keys of the parts: one part is not compared.
  abbrev pub can_sort : List (KvPairs Val) → Bool
  can_sort [] = true
  can_sort (s ∷ []) = true
  can_sort (s ∷ t ∷ parts) = all_have_keys (s ∷ t ∷ parts)

  -- The handle that `Get_` registers.
  unfoldable pub recv_finish_handle : SparseClient Val → Option (SparseClient Val)
  recv_finish_handle c = do
    keys ← get_elem? c.table.keys (sub_u32 c.table.get_count 1)
    check (key_count c.table.recv_kvs == length keys)
    check (can_sort c.table.recv_kvs)
    some (record {
      table = record c.table { recv_kvs = [] };
      vals = concat_vals (sort c.table.recv_kvs);
    })

module _ {Val : Type 0} ⦃p : Platform⦄ where
  -- One round of the loop of `Send_`.
  unfoldable pub send_part : SparseTable Val → Bool → ℕ → ℕ × KvPairs ℕ → Message
  send_part t is_add version (id, kvs) =
      let msg : Message = record {
        meta = record {
          sender = t.app_thread_id;
          recver = id;
          model_id = t.model_id;
          flag = if is_add then Flag.add else Flag.get;
          version = version;
        };
        body = [];
      } in
      let with_keys = add_data (p.of_keys kvs.keys) msg in
      if length kvs.keys == 0
      then msg
      else if is_add
      then add_data kvs.vals with_keys
      else with_keys

  unfoldable pub send : SparseTable Val → Bool → ℕ → SlicedKvs → List Message
  unfolding send_part
  send t is_add version sliced = map (send_part t is_add version) sliced

  -- `Clock_`, which `Get_` calls for the iteration before.
  unfoldable pub clock : SparseTable Val → AbstractPartitionManager → List Message
  clock t manager =
      map
        (λ id. record {
          meta = record {
            sender = t.app_thread_id;
            recver = id;
            model_id = t.model_id;
            flag = Flag.clock;
            version = sub_u32 t.get_count 2;
          };
          body = [];
        })
        manager.server_thread_ids

  -- The loop of the first `Get_`: `n` more Gets, from the iteration `i` on.
  unfoldable pub send_gets :
      AbstractPartitionManager
      → ℕ
      → ℕ
      → SparseTable Val
      → AppBlocker (SparseClient Val)
      → Option (List Message × SparseTable Val × AppBlocker (SparseClient Val))
  unfolding send
  send_gets manager zero i t b = some ([], t, b)
  send_gets manager (suc n) i t b = do
    keys ← get_elem? t.keys i
    sliced ← manager.slice (record { keys = keys; vals = [] })
    let num_reqs = length sliced % u32_mod
    b' ← (if i == 0 then new_request t.app_thread_id t.model_id num_reqs b else some b)
    (msgs, t'', b'') ←
        send_gets manager n (i + 1) (record t { num_reqs = t.num_reqs ++ num_reqs ∷ [] }) b'
    some (send t false i sliced ++ msgs, t'', b'')

  -- The later calls of `Get_`.
  unfoldable pub send_next :
      AbstractPartitionManager
      → SparseTable Val
      → AppBlocker (SparseClient Val)
      → Option (List Message × SparseTable Val × AppBlocker (SparseClient Val))
  unfolding send clock
  send_next manager t b = do
    expected ← get_elem? t.num_reqs (sub_u32 t.get_count 1)
    b' ← new_request t.app_thread_id t.model_id expected b
    let next = add_u32 (sub_u32 t.get_count 1) t.speculation
    keys ← get_elem? t.keys next
    sliced ← manager.slice (record { keys = keys; vals = [] })
    some (
      clock t manager ++ send t false next sliced,
      record t { num_reqs = t.num_reqs ++ (length sliced % u32_mod) ∷ [] },
      b',
    )

  -- `Get_`: what it sends, and the table and the blocker with which it then waits.
  unfoldable pub get_ :
      AbstractPartitionManager
      → SparseTable Val
      → AppBlocker (SparseClient Val)
      → Option (List Message × SparseTable Val × AppBlocker (SparseClient Val))
  unfolding send_gets send_next
  get_ manager t b = do
    check (t.get_count == t.add_count)
    let t1 = record t { get_count = add_u32 t.get_count 1 }
    let b1 = register_recv_finish_handle t.app_thread_id t.model_id recv_finish_handle b
    if t1.get_count == 1
        then send_gets manager (t.speculation + 1) 0 t1 b1
        else send_next manager t1 b1

module _ {Val : Type 0} ⦃p : Platform⦄ ⦃w : Values Val⦄ where
  unfoldable pub add :
      AbstractPartitionManager
      → List ℕ
      → List Val
      → SparseTable Val
      → Option (List Message × SparseTable Val)
  unfolding send
  add manager keys vals t = do
    let t1 = record t { add_count = add_u32 t.add_count 1 }
    check (t1.get_count == t1.add_count)
    sliced ← manager.slice (record { keys = keys; vals = w.of_vals vals })
    some (send t1 true (sub_u32 t1.get_count 1) sliced, t1)

  -- The handle that `Setup_` registers.
  unfoldable pub recv_handle : Message → SparseClient Val → Option (SparseClient Val)
  recv_handle msg c = do
    kvs ← received msg.body
    some (record c { table = record c.table { recv_kvs = c.table.recv_kvs ++ kvs ∷ [] } })

  unfoldable pub setup :
      SparseTable Val → AppBlocker (SparseClient Val) → Option (AppBlocker (SparseClient Val))
  setup t b = do
    check (leb t.speculation 50)
    some (register_recv_handle t.app_thread_id t.model_id recv_handle b)

  -- The constructors.
  unfoldable pub make :
      ℕ
      → ℕ
      → ℕ
      → List (List ℕ)
      → AppBlocker (SparseClient Val)
      → Option (SparseTable Val × AppBlocker (SparseClient Val))
  unfolding setup
  make app_thread_id model_id speculation keys b = do
    let t : SparseTable Val = record {
      app_thread_id = app_thread_id;
      model_id = model_id;
      recv_kvs = [];
      speculation = speculation;
      keys = keys;
      num_reqs = [];
      get_count = 0;
      add_count = 0;
    }
    b' ← setup t b
    some (t, b')

-- ===== src/Worker/SimpleTable.antt =====
-- worker/simple_kv_table.hpp: a table whose thread takes the replies itself.
pub mod Gets
use flexps.Base.{
  ℕ, ◌%◌, List, [], ◌∷◌, Option, none, some, Bool, true, false, ltb, ◌==◌, ◌>>=◌, length, add_u32,
  u32_mod,
}
use flexps.Message.{Message, ThreadsafeQueue, Platform, Values}
use flexps.Worker.RangeManager.{KvPairs, AbstractPartitionManager}
use flexps.Worker.TableBox
use flexps.Worker.TableBox.{TableBox, send, handle_msg, handle_finish}

-- `recv_queue` holds the messages that are still to be delivered to the thread.
pub record SimpleTable (Val : Type 0) : Type 0 where
  pub current_responses : ℕ
  pub expected_responses : ℕ
  pub recv_queue : ThreadsafeQueue Message
  pub kv_table_box : TableBox Val

module _ {Val : Type 0} ⦃p : Platform⦄ ⦃w : Values Val⦄ where
  -- The loop of `Get_` over the queue; `vals` is what the caller's vector holds. `none` is a failed
  -- CHECK, or a wait for a message that does not come.
  unfoldable pub wait :
      List ℕ
      → ThreadsafeQueue Message
      → List Val
      → SimpleTable Val
      → Option (List Val × SimpleTable Val)
  wait keys [] vals t = elim (ltb t.current_responses t.expected_responses) [
    | true ↦ none
    | false ↦ some (vals, record t { recv_queue = [] })
  ]
  wait keys (msg ∷ queue) vals t = elim (ltb t.current_responses t.expected_responses) [
    | false ↦ some (vals, record t { recv_queue = msg ∷ queue })
    | true ↦ do
      let current = add_u32 t.current_responses 1
      box ← handle_msg msg t.kv_table_box
      elim (current == t.expected_responses) [
        | true ↦ do
          (vals', box') ← handle_finish keys box
          wait keys queue vals'
              (record t { current_responses = 0; expected_responses = 0; kv_table_box = box' })
        | false ↦
            wait keys queue vals (record t { current_responses = current; kv_table_box = box })
      ]
  ]

  -- `Get_`: the messages that it sends, the vector and the table at the end.
  unfoldable pub get_ :
      AbstractPartitionManager
      → List ℕ
      → List Val
      → SimpleTable Val
      → Option (List Message × List Val × SimpleTable Val)
  unfolding wait
  get_ manager keys vals t = do
    sliced ← manager.slice (record { keys = keys; vals = [] })
    (vals', t') ←
        wait keys t.recv_queue vals
          (record t { current_responses = 0; expected_responses = length sliced % u32_mod })
    some (send t.kv_table_box false sliced, vals', t')

  abbrev pub add :
      AbstractPartitionManager → List ℕ → List Val → SimpleTable Val → Option (List Message)
  add manager keys vals t = TableBox.add manager keys vals t.kv_table_box

  abbrev pub clock : SimpleTable Val → AbstractPartitionManager → List Message
  clock t manager = TableBox.clock t.kv_table_box manager

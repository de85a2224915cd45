-- ===== src/Worker/ClientTable.antt =====
-- worker/kv_client_table.hpp: a table whose replies the worker helper thread takes, through an
-- AppBlocker. The callbacks change the table's box and the vector of the Get that waits.
pub mod Gets
use flexps.Base.{ℕ, ◌%◌, List, [], Option, none, some, Bool, false, ◌>>=◌, length, u32_mod}
use flexps.Message.{Message, Platform, Values}
use flexps.Worker.RangeManager.{KvPairs, AbstractPartitionManager}
use flexps.Worker.Blocker.{
  AppBlocker, register_recv_handle, register_recv_finish_handle, new_request,
}
use flexps.Worker.TableBox
use flexps.Worker.TableBox.{TableBox, send, handle_msg, handle_finish}

-- What the callbacks of a table can change.
pub record Client (Val : Type 0) : Type 0 where
  pub kv_table_box : TableBox Val
  pub vals : List Val

module _ {Val : Type 0} ⦃p : Platform⦄ ⦃w : Values Val⦄ where
  abbrev pub recv_handle : Message → Client Val → Option (Client Val)
  recv_handle msg c = do box ← handle_msg msg c.kv_table_box; some (record c { kv_table_box = box })

  -- The callback that `Get_` registers.
  abbrev pub recv_finish_handle : List ℕ → Client Val → Option (Client Val)
  recv_finish_handle keys c = do
    (vals, box) ← handle_finish keys c.kv_table_box
    some (record { kv_table_box = box; vals = vals })

  -- The constructor.
  unfoldable pub make : TableBox Val → AppBlocker (Client Val) → AppBlocker (Client Val)
  make box b = register_recv_handle box.app_thread_id box.model_id recv_handle b

  -- The steps 1 to 4 of `Get_`: what it sends, and the blocker that it then waits for.
  unfoldable pub get_ :
      AbstractPartitionManager
      → List ℕ
      → TableBox Val
      → AppBlocker (Client Val)
      → Option (List Message × AppBlocker (Client Val))
  get_ manager keys box b = do
    sliced ← manager.slice (record { keys = keys; vals = [] })
    let b1 = register_recv_finish_handle box.app_thread_id box.model_id (recv_finish_handle keys) b
    b2 ← new_request box.app_thread_id box.model_id (length sliced % u32_mod) b1
    some (send box false sliced, b2)

  abbrev pub add :
      AbstractPartitionManager → List ℕ → List Val → TableBox Val → Option (List Message)
  add manager keys vals box = TableBox.add manager keys vals box

  abbrev pub clock : TableBox Val → AbstractPartitionManager → List Message
  clock box manager = TableBox.clock box manager

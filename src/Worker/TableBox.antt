-- ===== src/Worker/TableBox.antt =====
-- worker/kv_table_box.hpp: what the tables share. The messages that it pushes to the send queue are
-- answers of its functions. The partition manager is there (CHECK_NOTNULL). `std::sort` compares the
-- first keys of the parts.
pub mod Sorting
pub mod Keys
pub mod Replies
use flexps.Base.{
  ℕ, ◌+◌, ◌-◌, List, [], ◌∷◌, ◌++◌, map, Option, none, some, Bool, true, false, ltb, ◌==◌,
  if◌then◌else◌, ◌>>=◌, ◌>>◌, check, length, add_u32,
}
use flexps.Message.{Chars, Flag, Meta, Message, add_data, Platform, Values}
use flexps.Worker.RangeManager.{KvPairs, SlicedKvs, AbstractPartitionManager}

pub record TableBox (Val : Type 0) : Type 0 where
  pub app_thread_id : ℕ
  pub model_id : ℕ
  pub recv_kvs : List (KvPairs Val)

-- `keys.front()` and `keys.back()` of the keys `k ∷ ks`.
abbrev pub back : ℕ → List ℕ → ℕ
back k [] = k
back k (k' ∷ ks) = back k' ks

-- `keys.front()`, where the code has read it before.
abbrev pub front : List ℕ → ℕ
front [] = 0
front (k ∷ ks) = k

module _ {Val : Type 0} where
  abbrev pub insert_part : KvPairs Val → List (KvPairs Val) → List (KvPairs Val)
  insert_part s [] = s ∷ []
  insert_part s (t ∷ parts) =
      let rest = insert_part s parts in
      if ltb (front s.keys) (front t.keys) then s ∷ t ∷ parts else t ∷ rest

  -- `std::sort(recv_kvs_.begin(), recv_kvs_.end(), ...)`
  unfoldable pub sort : List (KvPairs Val) → List (KvPairs Val)
  sort [] = []
  sort (s ∷ parts) = insert_part s (sort parts)

  -- The values of the parts, one after the other.
  abbrev pub concat_vals : List (KvPairs Val) → List Val
  concat_vals [] = []
  concat_vals (s ∷ parts) = s.vals ++ concat_vals parts

module _ ⦃p : Platform⦄ where
  -- One part in the first loop of `HandleFinish`: a reply without a key is a fault.
  unfoldable pub check_part : List ℕ → List ℕ → Option (Unit {0})
  check_part keys [] = none
  check_part keys (k ∷ ks) =
      let range = p.find_range keys k (add_u32 (back k ks) 1) in
      check (range.1 - range.0 == length (k ∷ ks))

module _ {Val : Type 0} ⦃p : Platform⦄ where
  -- A message whose other fields are not set.
  abbrev pub make_message : TableBox Val → ℕ → Flag → Message
  make_message t recver flag = record {
    meta = record p.fresh_meta {
      sender = t.app_thread_id;
      recver = recver;
      model_id = t.model_id;
      flag = flag;
    };
    body = [];
  }

  -- One round of the loop of `Send`.
  unfoldable pub send_part : TableBox Val → Bool → ℕ × KvPairs ℕ → Message
  send_part t is_add (id, kvs) =
      let msg = make_message t id (if is_add then Flag.add else Flag.get) in
      let with_keys = add_data (p.of_keys kvs.keys) msg in
      if length kvs.keys == 0
      then msg
      else if is_add
      then add_data kvs.vals with_keys
      else with_keys

  unfoldable pub send : TableBox Val → Bool → SlicedKvs → List Message
  unfolding send_part
  send t is_add sliced = map (send_part t is_add) sliced

  unfoldable pub clock : TableBox Val → AbstractPartitionManager → List Message
  clock t manager = map (λ id. make_message t id Flag.clock) manager.server_thread_ids

  -- The loop: the number of keys.
  unfoldable pub total_key : List ℕ → List (KvPairs Val) → Option ℕ
  unfolding check_part
  total_key keys [] = some 0
  total_key keys (s ∷ parts) = do
    check_part keys s.keys
    n ← total_key keys parts
    some (length s.keys + n)

  -- `HandleFinish`: the values that it leaves in `vals`, and the box.
  unfoldable pub handle_finish : List ℕ → TableBox Val → Option (List Val × TableBox Val)
  unfolding total_key sort
  handle_finish keys t = do
    n ← total_key keys t.recv_kvs
    check (n == length keys)
    some (concat_vals (sort t.recv_kvs), record t { recv_kvs = [] })

module _ {Val : Type 0} ⦃p : Platform⦄ ⦃w : Values Val⦄ where
  -- `Add`: an array of values is sent as its characters.
  unfoldable pub add :
      AbstractPartitionManager → List ℕ → List Val → TableBox Val → Option (List Message)
  unfolding send
  add manager keys vals t = do
    sliced ← manager.slice (record { keys = keys; vals = w.of_vals vals })
    some (send t true sliced)

  -- `CHECK_EQ(msg.data.size(), 2)`, and the keys and values of the reply.
  unfoldable pub received : List Chars → Option (KvPairs Val)
  received (keys ∷ vals ∷ []) = some (record { keys = p.as_keys keys; vals = w.as_vals vals })
  received _ = none

  unfoldable pub handle_msg : Message → TableBox Val → Option (TableBox Val)
  unfolding received
  handle_msg msg t = do
    kvs ← received msg.body
    some (record t { recv_kvs = t.recv_kvs ++ kvs ∷ [] })

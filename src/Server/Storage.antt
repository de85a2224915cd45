-- ===== src/Server/Storage.antt =====
-- server/abstract_storage.hpp: the requests that every storage answers.
pub mod MapStorage
pub mod VectorStorage
pub mod Refinement
pub mod Replies
use flexps.Base.{ℕ, List, [], ◌∷◌, Option, none, some, ◌>>=◌}
use flexps.Message.{Chars, Message, Platform}

-- The virtual functions of a storage whose state is an `S`. `SubGet` may change the state: on a
-- map, a read of a missing key inserts it.
pub record StorageClass (S : Type 0) : Type 0 where
  pub sub_add : List ℕ → Chars → S → Option S
  pub sub_get : List ℕ → S → Option (Chars × S)
  pub finish_iter : S → S

-- The reply of `AbstractStorage::Get`: the ends of the request change places.
abbrev pub reply_to : Message → Chars → Chars → Message
reply_to msg keys vals = record {
  meta = record {
    sender = msg.recver;
    recver = msg.sender;
    model_id = msg.model_id;
    flag = msg.flag;
    version = msg.version;
  };
  body = keys ∷ vals ∷ [];
}

module _ {S : Type 0} ⦃p : Platform⦄ ⦃c : StorageClass S⦄ where
  add_body : List Chars → S → Option S
  add_body (keys ∷ vals ∷ []) s = c.sub_add (p.as_keys keys) vals s
  add_body _ s = none

  -- `AbstractStorage::Add`
  unfoldable pub add : Message → S → Option S
  unfolding add_body
  add msg s = add_body msg.body s

  get_body : Message → List Chars → S → Option (Message × S)
  get_body msg (chars ∷ []) s = do
    let keys = p.as_keys chars
    (vals, s') ← c.sub_get keys s
    some (reply_to msg (p.of_keys keys) vals, s')
  get_body msg _ s = none

  -- `AbstractStorage::Get`
  unfoldable pub get : Message → S → Option (Message × S)
  unfolding get_body
  get msg s = get_body msg msg.body s

  -- The loops of the models over buffered requests.
  unfoldable pub add_all : List Message → S → Option S
  add_all [] s = some s
  add_all (msg ∷ msgs) s = do s' ← add msg s; add_all msgs s'

  unfoldable pub get_all : List Message → S → Option (List Message × S)
  get_all [] s = some ([], s)
  get_all (msg ∷ msgs) s = do
    (reply, s') ← get msg s
    (replies, s'') ← get_all msgs s'
    some (reply ∷ replies, s'')

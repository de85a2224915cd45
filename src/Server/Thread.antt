-- ===== src/Server/Thread.antt =====
-- server/server_thread.hpp and .cpp: one thread that serves the models of its node in turn.
pub mod Isolation
use flexps.Base.{
  ℕ, List, [], ◌∷◌, ◌++◌, Option, none, some, Bool, true, false, Dict, find, contains, put, insert,
  not, check, ◌>>=◌, ◌>>◌, if◌then◌else◌,
}
use flexps.Message.{Message, ThreadsafeQueue, Platform, is_exit}
use flexps.Server.Storage.{StorageClass}
use flexps.Server.Model.{AbstractModel, dispatch}
use flexps.Server.Asp
use flexps.Server.Asp.{AspModel}
use flexps.Server.Bsp
use flexps.Server.Bsp.{BspModel}
use flexps.Server.Ssp
use flexps.Server.Ssp.{SspModel}
use flexps.Server.Recorder.UnorderedMap.{MapRecords, map_records}
use flexps.Server.Recorder.Vector.{VectorRecords, vector_records}
use flexps.Server.SparseSsp
use flexps.Server.SparseSsp.{SparseSspModel}

-- The classes of models, over one class of storage; that of a sparse SSP model with either recorder.
pub data Model (S : Type 0) : Type 0 where
  asp : AspModel S → Model S
  bsp : BspModel S → Model S
  ssp : SspModel S → Model S
  sparse_map : SparseSspModel S MapRecords → Model S
  sparse_vector : SparseSspModel S VectorRecords → Model S

-- The Clock of a sparse SSP model calls itself on the clocks that it has kept; where these are of
-- threads ahead of the minimum, these calls do not call it again.
abbrev sparse_depth : ℕ
sparse_depth = 2

-- An operation's replies, with the model that it leaves put back behind the base class.
abbrev upcast : {A B : Type 0} → (A → B) → Option (List Message × A) → Option (List Message × B)
upcast f r = r >>= λ (replies, m). some (replies, f m)

module _ {S : Type 0} ⦃p : Platform⦄ ⦃c : StorageClass S⦄ where
  unfoldable pub model_clock : Message → Model S → Option (List Message × Model S)
  model_clock msg (asp m) = upcast asp (Asp.clock msg m)
  model_clock msg (bsp m) = upcast bsp (Bsp.clock msg m)
  model_clock msg (ssp m) = upcast ssp (Ssp.clock msg m)
  model_clock msg (sparse_map m) = upcast sparse_map (SparseSsp.clock sparse_depth msg m)
  model_clock msg (sparse_vector m) = upcast sparse_vector (SparseSsp.clock sparse_depth msg m)

  unfoldable pub model_add : Message → Model S → Option (List Message × Model S)
  model_add msg (asp m) = upcast asp (Asp.add msg m)
  model_add msg (bsp m) = upcast bsp (Bsp.add msg m)
  model_add msg (ssp m) = upcast ssp (Ssp.add msg m)
  model_add msg (sparse_map m) = upcast sparse_map (SparseSsp.add msg m)
  model_add msg (sparse_vector m) = upcast sparse_vector (SparseSsp.add msg m)

  unfoldable pub model_get : Message → Model S → Option (List Message × Model S)
  model_get msg (asp m) = upcast asp (Asp.get msg m)
  model_get msg (bsp m) = upcast bsp (Bsp.get msg m)
  model_get msg (ssp m) = upcast ssp (Ssp.get msg m)
  model_get msg (sparse_map m) = upcast sparse_map (SparseSsp.get msg m)
  model_get msg (sparse_vector m) = upcast sparse_vector (SparseSsp.get msg m)

  unfoldable pub model_reset_worker : Message → Model S → Option (List Message × Model S)
  model_reset_worker msg (asp m) = upcast asp (Asp.reset_worker msg m)
  model_reset_worker msg (bsp m) = upcast bsp (Bsp.reset_worker msg m)
  model_reset_worker msg (ssp m) = upcast ssp (Ssp.reset_worker msg m)
  model_reset_worker msg (sparse_map m) = upcast sparse_map (SparseSsp.reset_worker msg m)
  model_reset_worker msg (sparse_vector m) = upcast sparse_vector (SparseSsp.reset_worker msg m)

  instance abbrev pub any_model : AbstractModel (Model S)
  any_model = record {
    clock = model_clock;
    add = model_add;
    get = model_get;
    reset_worker = model_reset_worker;
  }

pub record ServerThread (M : Type 0) : Type 0 where
  pub server_id : ℕ
  pub models : Dict M

module _ {M : Type 0} ⦃a : AbstractModel M⦄ where
  -- The body of the loop of `Main`, for a message that is no `kExit`.
  unfoldable pub handle : Message → ServerThread M → Option (List Message × ServerThread M)
  handle msg t = do
    m ← find msg.model_id t.models
    (replies, m') ← dispatch msg m
    some (replies, record t { models = put msg.model_id m' t.models })

  -- `Main` on the messages that its work queue delivers: what it pushes to the reply queue, what
  -- an exit leaves in the work queue, and the thread at the end.
  unfoldable pub main :
      ThreadsafeQueue Message
      → ServerThread M
      → Option (List Message × ThreadsafeQueue Message × ServerThread M)
  main [] t = some ([], [], t)
  main (msg ∷ queue) t = elim (is_exit msg.flag) [
    | true ↦ some ([], queue, t)
    | false ↦ do
      (replies, t') ← handle msg t
      (more, rest, t'') ← main queue t'
      some (replies ++ more, rest, t'')
  ]

module _ {M : Type 0} where
  unfoldable pub register_model : ℕ → M → ServerThread M → Option (ServerThread M)
  register_model model_id model t = do
    check (not (contains model_id t.models))
    some (record t { models = insert model_id model t.models })

  abbrev pub get_model : ℕ → ServerThread M → Option M
  get_model model_id t = find model_id t.models

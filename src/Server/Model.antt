-- ===== src/Server/Model.antt =====
-- server/abstract_model.hpp: what a model answers to, and the `switch` of `ServerThread::Main`
-- (server/server_thread.cpp) over the flag of a message.
use flexps.Base.{List, [], ◌∷◌, ◌++◌, Option, none, some, ◌>>=◌}
use flexps.Message.{Message, Flag}

-- The virtual functions of a model whose state is an `M`. Each returns what it pushes to the reply
-- queue; `none` is a failed CHECK.
pub record AbstractModel (M : Type 0) : Type 0 where
  pub clock : Message → M → Option (List Message × M)
  pub add : Message → M → Option (List Message × M)
  pub get : Message → M → Option (List Message × M)
  pub reset_worker : Message → M → Option (List Message × M)

module _ {M : Type 0} ⦃a : AbstractModel M⦄ where
  unfoldable pub by_flag : Flag → Message → M → Option (List Message × M)
  by_flag Flag.clock msg m = a.clock msg m
  by_flag Flag.add msg m = a.add msg m
  by_flag Flag.get msg m = a.get msg m
  by_flag Flag.reset_worker_in_model msg m = a.reset_worker msg m
  by_flag _ msg m = none

  unfoldable pub dispatch : Message → M → Option (List Message × M)
  unfolding by_flag
  dispatch msg m = by_flag msg.flag msg m

  -- A model under a list of messages: all that it replies, and its state at the end.
  unfoldable pub run : List Message → M → Option (List Message × M)
  run [] m = some ([], m)
  run (msg ∷ msgs) m = do
    (replies, m') ← dispatch msg m
    (more, m'') ← run msgs m'
    some (replies ++ more, m'')

-- ===== src/Worker/Blocker/Handles.antt =====
-- Responses leave the handles of an AppBlocker alone.
use flexps.Base.{ℕ, ◌≡◌, ◌∙◌, List, [], ◌∷◌, some, if◌then◌else◌, ◌>>=◌, arith, >>=-eq-some}
use flexps.Message.{Message}
use flexps.Worker.Blocker.{AppBlocker, add_response, recv_finish, find2}
use flexps.Worker.Blocker.Responses.{add_responses}

module _ {C : Type 0} where
  add_response-handles :
      (a m : ℕ) (msg : Message) (b b' : AppBlocker C) (c c' : C)
      → add_response a m msg b c ≡ some (b', c')
      → b'.recv_handle ≡ b.recv_handle
  unfolding add_response
  add_response-handles a m msg b b' c c' e =
      let (handle, found, e1) = >>=-eq-some (find2 a m b.recv_handle) _ e in
      let (c1, handled, e2) = >>=-eq-some (handle msg c) _ e1 in
      let (c2, finished, e3) =
        >>=-eq-some
          (if recv_finish a m b
            then (do finish ← find2 a m b.recv_finish_handle; finish c1)
            else some c1)
          _ e2 in
      ground arith

  -- The responses to a request change no handle.
  pub add_responses-handles :
      (a m : ℕ) (msgs : List Message) (b b' : AppBlocker C) (c c' : C)
      → add_responses a m msgs b c ≡ some (b', c')
      → b'.recv_handle ≡ b.recv_handle
  add_responses-handles a m [] b b' c c' e = ground arith
  add_responses-handles a m (msg ∷ msgs) b b' c c' e =
      let ((b1, c1), one, e1) = >>=-eq-some (add_response a m msg b c) _ e in
      add_responses-handles a m msgs b1 b' c1 c' e1 ∙ add_response-handles a m msg b b1 c c1 one

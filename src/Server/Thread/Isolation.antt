-- ===== src/Server/Thread/Isolation.antt =====
-- A server thread is, for each model, that model alone on the messages that name it.
use flexps.Base.{
  ℕ, ◌≡◌, refl, List, [], ◌∷◌, ◌++◌, some, find, put, if◌then◌else◌, ◌==◌, arith, find-put,
  Bool-cases, inl, inr, >>=-eq-some,
}
use flexps.Message.{Message, is_exit}
use flexps.Server.Model.{AbstractModel, dispatch, run}
use flexps.Server.Thread.{ServerThread, handle, main, get_model}

-- The messages for the model `k` before the first exit.
abbrev pub addressed_to : ℕ → List Message → List Message
addressed_to k [] = []
addressed_to k (msg ∷ msgs) =
    if is_exit msg.flag
    then []
    else if k == msg.model_id
    then msg ∷ addressed_to k msgs
    else addressed_to k msgs

module _ {M : Type 0} ⦃a : AbstractModel M⦄ where
  -- A message that does not abort.
  pub handle_cases :
      (msg : Message) (t t' : ServerThread M) (replies : List Message)
      → handle msg t ≡ some (replies, t')
      → (m : M) × (m' : M) × (find msg.model_id t.models ≡ some m)
        × (dispatch msg m ≡ some (replies, m'))
        × (t'.models ≡ put msg.model_id m' t.models)
  unfolding handle
  handle_cases msg t t' replies e =
      let (m, found, e1) = >>=-eq-some (find msg.model_id t.models) _ e in
      let (r, done, e2) = >>=-eq-some (dispatch msg m) _ e1 in
      (m, r.1, found, ground arith, ground arith)

  abbrev pub Served : ℕ → List Message → M → ServerThread M → Type 0
  Served k msgs m t =
      (m' : M) × (out : List Message) × (get_model k t ≡ some m') × (run msgs m ≡ some (out, m'))

  -- The model `k` after one message, and after the messages that follow it.
  serve_next :
      (k : ℕ) (msg : Message) (msgs : List Message) (t t' t'' : ServerThread M)
      (replies : List Message) (m : M)
      → handle msg t ≡ some (replies, t')
      → get_model k t ≡ some m
      → ((m' : M) → get_model k t' ≡ some m' → Served k msgs m' t'')
      → Served k (if k == msg.model_id then msg ∷ msgs else msgs) m t''
  unfolding run
  serve_next k msg msgs t t' t'' replies m e f later =
      let (n, n', found, done, after) = handle_cases msg t t' replies e in
      elim (Bool-cases (k == msg.model_id)) [
        | inl same ↦
            let (m'', out, g, r) = later n' (ground (arith, find-put k msg.model_id n' t.models)) in
            (m'', replies ++ out, g, ground arith)
        | inr other ↦ rw other (later m (ground (arith, find-put k msg.model_id n' t.models)))
      ]

  -- A run that does not abort leaves each model that the thread has as that model alone would be after
  -- the messages that name it, up to the first exit.
  pub main-get_model :
      (k : ℕ) (queue rest : List Message) (t t' : ServerThread M) (replies : List Message) (m : M)
      → main queue t ≡ some (replies, rest, t')
      → get_model k t ≡ some m
      → Served k (addressed_to k queue) m t'
  unfolding main run
  main-get_model k [] rest t t' replies m e f = (m, [], ground arith, refl)
  main-get_model k (msg ∷ queue) rest t t' replies m e f = elim (Bool-cases (is_exit msg.flag)) [
    | inl exits ↦ rw exits (m, [], ground arith, refl)
    | inr goes_on ↦
        let (r, done, e1) = >>=-eq-some (handle msg t) _ (rw (goes_on, main) at e) in
        let (r', later, e2) = >>=-eq-some (main queue r.1) _ e1 in
        rw goes_on (
          serve_next k msg (addressed_to k queue) t r.1 t' r.0 m done f
            (λ m' f'. main-get_model k queue r'.1 r.1 t' r'.0 m' (ground arith) f'))
  ]

-- ===== src/Server/Storage/Replies.antt =====
-- What a storage answers, apart from the values.
use flexps.Base.{
  ℕ, ◌≡◌, refl, inl, inr, List, [], ◌∷◌, some, length, ◌>>=◌, >>=-eq-some, arith, Any, subst,
  Option-cases, ◌++◌,
}
use flexps.Message.{Chars, Message, Platform}
use flexps.Server.Storage.{StorageClass, add, get, get_all, add_all, get_body}

-- The reply goes back to the sender of the request, and names its model, flag and version.
pub record Answers (reply msg : Message) : Type 0 where
  pub to_sender : reply.recver ≡ msg.sender
  pub from_recver : reply.sender ≡ msg.recver
  pub same_model : reply.model_id ≡ msg.model_id
  pub same_flag : reply.flag ≡ msg.flag
  pub same_version : reply.version ≡ msg.version

module _ {S : Type 0} ⦃p : Platform⦄ ⦃c : StorageClass S⦄ where
  get_body-Answers :
      (msg reply : Message) (body : List Chars) (s s' : S)
      → get_body msg body s ≡ some (reply, s')
      → Answers reply msg
  unfolding get_body
  get_body-Answers msg reply [] s s' e = absurd (cc)
  get_body-Answers msg reply (chars ∷ []) s s' e =
      let (r, done, e1) = >>=-eq-some (c.sub_get (p.as_keys chars) s) _ e in
      record {
        to_sender = ground arith;
        from_recver = ground arith;
        same_model = ground arith;
        same_flag = ground arith;
        same_version = ground arith;
      }
  get_body-Answers msg reply (a ∷ b ∷ rest) s s' e = absurd (cc)

  pub get-Answers :
      (msg reply : Message) (s s' : S) → get msg s ≡ some (reply, s') → Answers reply msg
  unfolding get
  get-Answers msg reply s s' e = get_body-Answers msg reply msg.body s s' e

  -- Buffered requests are answered one by one.
  pub get_all-Answers :
      (msg : Message) (msgs replies : List Message) (s s' : S)
      → get_all msgs s ≡ some (replies, s')
      → Any (λ x. x ≡ msg) msgs
      → Any (λ r. Answers r msg) replies
  unfolding get_all
  get_all-Answers msg [] replies s s' e h = absurd h
  get_all-Answers msg (x ∷ msgs) replies s s' e h =
      let (r, done, e1) = >>=-eq-some (get x s) _ e in
      let (rs, later, e2) = >>=-eq-some (get_all msgs r.1) _ e1 in
      let shape : replies ≡ r.0 ∷ rs.0 = ground arith in
      elim h [
        | inl ex ↦ rw shape (inl (subst (Answers r.0) ex (get-Answers x r.0 s r.1 done)))
        | inr hs ↦ rw shape (inr (get_all-Answers msg msgs rs.0 r.1 rs.1 later hs))
      ]

  pub length-get_all :
      (msgs replies : List Message) (s s' : S)
      → get_all msgs s ≡ some (replies, s')
      → length replies ≡ length msgs
  unfolding get_all
  length-get_all [] replies s s' e = ground arith
  length-get_all (x ∷ msgs) replies s s' e =
      let (r, done, e1) = >>=-eq-some (get x s) _ e in
      let (rs, later, e2) = >>=-eq-some (get_all msgs r.1) _ e1 in
      ground (arith, length-get_all msgs rs.0 r.1 rs.1 later)

-- A storage whose reads, and whose end of an iteration, change nothing.
pub record ReadOnly {S : Type 0} (c : StorageClass S) : Type 0 where
  pub get_keeps :
      (keys : List ℕ) (chars : Chars) (s s' : S) → c.sub_get keys s ≡ some (chars, s') → s' ≡ s
  pub finish_keeps : (s : S) → c.finish_iter s ≡ s

module _ {S : Type 0} ⦃p : Platform⦄ ⦃c : StorageClass S⦄ where
  get_body-keeps :
      ReadOnly c
      → (msg reply : Message) (body : List Chars) (s s' : S)
      → get_body msg body s ≡ some (reply, s')
      → s' ≡ s
  unfolding get_body
  get_body-keeps ro msg reply [] s s' e = absurd (cc)
  get_body-keeps ro msg reply (chars ∷ []) s s' e =
      let (r, done, e1) = >>=-eq-some (c.sub_get (p.as_keys chars) s) _ e in
      ground (arith, ro.get_keeps (p.as_keys chars) r.0 s r.1 done)
  get_body-keeps ro msg reply (a ∷ b ∷ rest) s s' e = absurd (cc)

  pub get-keeps :
      ReadOnly c → (msg reply : Message) (s s' : S) → get msg s ≡ some (reply, s') → s' ≡ s
  unfolding get
  get-keeps ro msg reply s s' e = get_body-keeps ro msg reply msg.body s s' e

  pub get_all-keeps :
      ReadOnly c
      → (msgs replies : List Message) (s s' : S) → get_all msgs s ≡ some (replies, s')
      → s' ≡ s
  unfolding get_all
  get_all-keeps ro [] replies s s' e = ground arith
  get_all-keeps ro (x ∷ msgs) replies s s' e =
      let (r, done, e1) = >>=-eq-some (get x s) _ e in
      let (rs, later, e2) = >>=-eq-some (get_all msgs r.1) _ e1 in
      ground (arith, get_all-keeps ro msgs rs.0 r.1 rs.1 later, get-keeps ro x r.0 s r.1 done)

  pub add_all-append :
      (xs ys : List Message) (s : S) → add_all (xs ++ ys) s ≡ (add_all xs s >>= add_all ys)
  unfolding add_all
  add_all-append [] ys s = refl
  add_all-append (x ∷ xs) ys s = elim (Option-cases (add x s)) [
    | inl aborts ↦ rw aborts
    | inr (s', goes_on) ↦ rw goes_on (add_all-append xs ys s')
  ]

-- ===== src/Server/Bsp/Sequential.antt =====
-- A BSP server applies every Add once, in the order of arrival, as if there were no rounds.
use flexps.Base.{
  ◌≡◌, refl, sym, ap, ◌∙◌, List, [], ◌∷◌, ◌++◌, Option, none, some, ◌==◌, ◌+◌, ◌>>=◌, check, arith,
  inl, inr, >>=-eq-some, Bool-cases,
}
use flexps.Message.{Message, Flag, Platform}
use flexps.Server.Tracker.{get_progress as progress_of}
use flexps.Server.Storage
use flexps.Server.Storage.{StorageClass}
use flexps.Server.Storage.Replies.{ReadOnly, get-keeps, get_all-keeps, add_all-append}
use flexps.Server.Reset.{reset_tracker}
use flexps.Server.Model.{dispatch, run, by_flag}
use flexps.Server.Bsp.{BspModel, clock, add, get, reset_worker, bsp_model}
use flexps.Server.Bsp.Rounds.{clock_cases}

-- The Adds among the messages.
abbrev pub adds_of : Flag → Message → List Message
adds_of Flag.add msg = msg ∷ []
adds_of _ msg = []

abbrev pub adds : List Message → List Message
adds [] = []
adds (msg ∷ msgs) = adds_of msg.flag msg ++ adds msgs

module _ {S : Type 0} ⦃p : Platform⦄ ⦃c : StorageClass S⦄ where
  -- The storage once the additions of the current round have been applied.
  abbrev pub applied : BspModel S → Option S
  applied m = Storage.add_all m.add_buffer m.storage

  module _ (ro : ReadOnly c) where
    clock-applied :
        (x : Message) (m m' : BspModel S) (replies : List Message)
        → clock x m ≡ some (replies, m')
        → applied m' ≡ applied m
    unfolding Storage.add_all
    clock-applied x m m' replies e =
        let (changed, t, moved, _, how) = clock_cases x m m' replies e in
        elim how [
          | inl (_, _, em) ↦ rw em
          | inr (_, (s, s', added, got, es, _, _, eb)) ↦
              rw (eb, es, added, ro.finish_keeps s', get_all-keeps ro m.get_buffer replies s s' got)
        ]

    applied_same :
        (m m' : BspModel S)
        → m'.add_buffer ≡ m.add_buffer
        → m'.storage ≡ m.storage
        → applied m' ≡ applied m
    applied_same m m' eb es = rw (eb, es)

    get-applied :
        (x : Message) (m m' : BspModel S) (replies : List Message)
        → get x m ≡ some (replies, m')
        → applied m' ≡ applied m
    unfolding get
    get-applied x m m' replies e =
        let (q, found, e1) = >>=-eq-some (progress_of x.sender m.progress_tracker) _ e in
        elim (Bool-cases (q == m.progress_tracker.min_clock + 1)) [
          | inl ahead ↦ let e2 = rw ahead at e1 in applied_same m m' (ground arith) (ground arith)
          | inr other ↦ elim (Bool-cases (q == m.progress_tracker.min_clock)) [
            | inl level ↦
                let (r, done, e2) =
                  >>=-eq-some (Storage.get x m.storage) _ (rw (other, level) at e1) in
                applied_same m m' (ground arith)
                  (ground (arith, get-keeps ro x r.0 m.storage r.1 done))
            | inr behind ↦ absurd (ground arith)
          ]
        ]

    add-applied :
        (x : Message) (m m' : BspModel S) (replies : List Message)
        → add x m ≡ some (replies, m')
        → applied m' ≡ (applied m >>= Storage.add_all (x ∷ []))
    unfolding add
    add-applied x m m' replies e =
        let (q, found, e1) = >>=-eq-some (progress_of x.sender m.progress_tracker) _ e in
        let (u, level, e2) = >>=-eq-some (check (q == m.progress_tracker.min_clock)) _ e1 in
        let eb : m'.add_buffer ≡ m.add_buffer ++ x ∷ [] = ground arith in
        let es : m'.storage ≡ m.storage = ground arith in
        rw (eb, es) (add_all-append m.add_buffer (x ∷ []) m.storage)

    reset_worker-applied :
        (x : Message) (m m' : BspModel S) (replies : List Message)
        → reset_worker x m ≡ some (replies, m')
        → applied m' ≡ applied m
    unfolding reset_worker
    reset_worker-applied x m m' replies e =
        let (t, done, e1) = >>=-eq-some (reset_tracker x.body) _ e in
        applied_same m m' (ground arith) (ground arith)

    nothing_added : (o : Option S) → o ≡ (o >>= Storage.add_all [])
    unfolding Storage.add_all
    nothing_added none = refl
    nothing_added (some s) = refl

    by_flag-applied :
        (f : Flag) (x : Message) (m m' : BspModel S) (replies : List Message)
        → by_flag f x m ≡ some (replies, m')
        → applied m' ≡ (applied m >>= Storage.add_all (adds_of f x))
    unfolding by_flag
    by_flag-applied Flag.clock x m m' replies e =
        clock-applied x m m' replies e ∙ nothing_added (applied m)
    by_flag-applied Flag.add x m m' replies e = add-applied x m m' replies e
    by_flag-applied Flag.get x m m' replies e =
        get-applied x m m' replies e ∙ nothing_added (applied m)
    by_flag-applied Flag.reset_worker_in_model x m m' replies e =
        reset_worker-applied x m m' replies e ∙ nothing_added (applied m)
    by_flag-applied Flag.exit x m m' replies e = absurd (cc)
    by_flag-applied Flag.barrier x m m' replies e = absurd (cc)

    >>=-add_all :
        (o : Option S) (xs ys : List Message)
        → ((o >>= Storage.add_all xs) >>= Storage.add_all ys) ≡ (o >>= Storage.add_all (xs ++ ys))
    >>=-add_all none xs ys = refl
    >>=-add_all (some s) xs ys = sym (add_all-append xs ys s)

    -- If reading leaves a storage as it is, then after any messages that do not abort the storage with the pending additions of the current round is the storage
    -- at the start with every addition since, one by one in the order of arrival.
    pub run-applied :
        (msgs replies : List Message) (m m' : BspModel S)
        → run msgs m ≡ some (replies, m')
        → applied m' ≡ (applied m >>= Storage.add_all (adds msgs))
    unfolding run dispatch
    run-applied [] replies m m' e =
        let last : m ≡ m' = ground arith in ap applied (sym last) ∙ nothing_added (applied m)
    run-applied (x ∷ msgs) replies m m' e =
        let (r, done, e1) = >>=-eq-some (dispatch x m) _ e in
        let (rs, later, e2) = >>=-eq-some (run msgs r.1) _ e1 in
        let last : rs.1 ≡ m' = ground arith in
        let first = by_flag-applied x.flag x m r.1 r.0 done in
        ap applied (sym last)
        ∙ run-applied msgs rs.0 r.1 rs.1 later
        ∙ ap (λ o. o >>= Storage.add_all (adds msgs)) first
        ∙ >>=-add_all (applied m) (adds_of x.flag x) (adds msgs)

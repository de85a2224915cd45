-- ===== src/Server/Recorder/Replies.antt =====
-- The same of the Gets that a clock sets free, and of the sender's own Get.
use flexps.Base.{
  ℕ, ◌+◌, ◌≤◌, ◌≡◌, refl, sym, ap, ◌∙◌, subst, List, [], ◌∷◌, ◌++◌, some, All, All-append, find_or,
  arith, >>=-eq-some, check, Bool-cases, inl, inr, ◌⊎◌, ◌==◌, ltb, leb, ◌&&◌,
}
use flexps.Message.{Message, Platform}
use flexps.Server.Recorder.{
  MainRecorder, SparseRecorder, release_keys, reply_or_forward, reply_or_forward_all,
  remove_record_and_get_non_conflict_msgs, get_blocked, place_own, get_own, get_non_conflict_msgs,
}
use flexps.Server.Recorder.Conflicts.{
  NoConflict, SameRecords, NoConflict-keeps, reply_or_forward-NoConflict,
  reply_or_forward_all-NoConflict,
}

empty_or_not {ℓ} :
    {A : Type ℓ} (xs : List A) → (xs ≡ []) ⊎ ((x : A) × (rest : List A) × (xs ≡ x ∷ rest))
empty_or_not [] = inl refl
empty_or_not (x ∷ xs) = inr (x, xs, refl)

module _ {R : Type 0} ⦃p : Platform⦄ ⦃c : MainRecorder R⦄ where
  -- The replies of one step conflict with nothing that is recorded after it.
  abbrev Clear : ℕ → SparseRecorder R → List Message → SparseRecorder R → Type 0
  Clear min_clock s replies s' =
      All (NoConflict s.staleness min_clock s'.main_recorder) replies × (s'.staleness ≡ s.staleness)

  none_replied :
      (mc : ℕ) (s s' : SparseRecorder R) (replies : List Message)
      → replies ≡ []
      → s'.staleness ≡ s.staleness
      → Clear mc s replies s'
  none_replied mc s s' replies e h =
      (subst (λ y. All (NoConflict s.staleness mc s'.main_recorder) y) (sym e) tt, h)

  remove_record-Clear :
      (version mc : ℕ) (keys : List ℕ) (s s' : SparseRecorder R) (replies : List Message)
      → remove_record_and_get_non_conflict_msgs version mc keys s ≡ some (replies, s')
      → Clear mc s replies s'
  unfolding remove_record_and_get_non_conflict_msgs
  remove_record-Clear version mc keys s s' replies e =
      let ((freed, r), released, e1) =
        >>=-eq-some (release_keys version keys s.main_recorder) _ e in
      let ((msgs, r'), handled, e2) =
        >>=-eq-some (reply_or_forward_all s.staleness mc freed r) _ e1 in
      let (a, keeps) = reply_or_forward_all-NoConflict s.staleness mc freed msgs r r' handled in
      let same : r' ≡ s'.main_recorder = ground arith in
      let shape : msgs ≡ replies = ground arith in
      (
        subst (λ y. All (NoConflict s.staleness mc s'.main_recorder) y) shape
            (subst (λ x. All (NoConflict s.staleness mc x) msgs) same a),
        ground arith,
      )

  get_blocked-Clear :
      (progress sender mc : ℕ) (s s' : SparseRecorder R) (replies : List Message)
      → get_blocked progress sender mc s ≡ some (replies, s')
      → Clear mc s replies s'
  unfolding get_blocked
  get_blocked-Clear progress sender mc s s' replies e =
      elim (empty_or_not (find_or sender [] s.future_keys)) [
        | inl nothing ↦ none_replied mc s s' replies (ground arith) (ground arith)
        | inr ((version, keys), rest, queued) ↦ elim (Bool-cases (version + 1 == progress)) [
          | inr later ↦ none_replied mc s s' replies (ground arith) (ground arith)
          | inl due ↦
              let e1 = (rw (queued, due, get_blocked) at e) in
              let ((msgs, s1), removed, e2) =
                >>=-eq-some (remove_record_and_get_non_conflict_msgs version mc keys s) _ e1 in
              let (a, st) = remove_record-Clear version mc keys s s1 msgs removed in
              let same : s1.main_recorder ≡ s'.main_recorder = ground arith in
              let shape : msgs ≡ replies = ground arith in
              (
                subst (λ y. All (NoConflict s.staleness mc s'.main_recorder) y) shape
                    (subst (λ x. All (NoConflict s.staleness mc x) msgs) same a),
                ground (arith, st),
              )
        ]
      ]

  -- A Get within the staleness conflicts with nothing.
  near-NoConflict :
      (st mc : ℕ) (r : R) (msg : Message) → msg.version ≤ st + mc → NoConflict st mc r msg
  near-NoConflict st mc r msg h keys e v lo hi = absurd (omega (arith, h, lo, hi))

  place_own-Clear :
      (mc : ℕ) (msg : Message) (s s' : SparseRecorder R) (replies : List Message)
      → place_own mc msg s ≡ some (replies, s')
      → Clear mc s replies s' × SameRecords s.main_recorder s'.main_recorder
  unfolding place_own
  place_own-Clear mc msg s s' replies e =
      let (u, within, e1) =
        >>=-eq-some
          (check (leb mc msg.version && ltb msg.version (mc + s.staleness + s.speculation + 2))) _
          e in
      elim (Bool-cases (leb msg.version (s.staleness + mc))) [
        | inl near ↦
            let shape : replies ≡ msg ∷ [] = ground arith in
            let same : s ≡ s' = ground arith in
            (
              (
                subst (λ y. All (NoConflict s.staleness mc s'.main_recorder) y) (sym shape)
                    (near-NoConflict s.staleness mc s'.main_recorder msg (ground arith), tt),
                ap (λ (x : SparseRecorder R). x.staleness) (sym same),
              ),
              λ v k. ap (λ (x : SparseRecorder R). c.recorded v k x.main_recorder) (sym same),
            )
        | inr far ↦ elim (Bool-cases (leb msg.version (mc + s.staleness + s.speculation))) [
          | inl ahead ↦
              let e2 = rw (far, ahead) at e1 in
              let ((msgs, r), handled, e3) =
                >>=-eq-some (reply_or_forward s.staleness mc msg s.main_recorder) _ e2 in
              let (a, keeps) =
                reply_or_forward-NoConflict s.staleness mc msg s.main_recorder r msgs handled in
              let same : r ≡ s'.main_recorder = ground arith in
              let shape : msgs ≡ replies = ground arith in
              (
                (
                  subst (λ y. All (NoConflict s.staleness mc s'.main_recorder) y) shape
                      (subst (λ x. All (NoConflict s.staleness mc x) msgs) same a),
                  ground arith,
                ),
                λ v k. ap (λ x. c.recorded v k x) (sym same) ∙ keeps v k,
              )
          | inr too_fast ↦
              let same : s'.main_recorder ≡ s.main_recorder = ground arith in
              (
                none_replied mc s s' replies (ground arith) (ground arith),
                λ v k. ap (λ x. c.recorded v k x) same,
              )
        ]
      ]

  get_own-Clear :
      (progress sender mc : ℕ) (s s' : SparseRecorder R) (replies : List Message)
      → get_own progress sender mc s ≡ some (replies, s')
      → Clear mc s replies s' × SameRecords s.main_recorder s'.main_recorder
  unfolding get_own
  get_own-Clear progress sender mc s s' replies e =
      elim (empty_or_not (find_or sender [] s.future_msgs)) [
        | inl nothing ↦
            let same : s'.main_recorder ≡ s.main_recorder = ground arith in
            (
              none_replied mc s s' replies (ground arith) (ground arith),
              λ v k. ap (λ x. c.recorded v k x) same,
            )
        | inr ((version, msg), rest, queued) ↦ elim (Bool-cases (version == progress)) [
          | inr later ↦
              let same : s'.main_recorder ≡ s.main_recorder = ground arith in
              (
                none_replied mc s s' replies (ground arith) (ground arith),
                λ v k. ap (λ x. c.recorded v k x) same,
              )
          | inl due ↦
              let e1 = (rw (queued, due, get_own) at e) in
              let ((msgs, s1), own, e2) = >>=-eq-some (place_own mc msg s) _ e1 in
              let ((a, st), keeps) = place_own-Clear mc msg s s1 msgs own in
              let same : s1.main_recorder ≡ s'.main_recorder = ground arith in
              let shape : msgs ≡ replies = ground arith in
              (
                (
                  subst (λ y. All (NoConflict s.staleness mc s'.main_recorder) y) shape
                      (subst (λ x. All (NoConflict s.staleness mc x) msgs) same a),
                  ground (arith, st),
                ),
                λ v k. ap (λ x. c.recorded v k x) (sym same) ∙ keeps v k,
              )
        ]
      ]

  -- After a `GetNonConflictMsgs` that does not abort, no Get that it answers has a key that is recorded
  -- at a version from `min_clock` on that is older than the Get by more than the staleness.
  pub get_non_conflict_msgs-NoConflict :
      (progress sender min_clock : ℕ) (s s' : SparseRecorder R) (replies : List Message)
      → get_non_conflict_msgs progress sender min_clock s ≡ some (replies, s')
      → All (NoConflict s.staleness min_clock s'.main_recorder) replies
  unfolding get_non_conflict_msgs
  get_non_conflict_msgs-NoConflict progress sender mc s s' replies e =
      let ((msgs, s1), blocked, e1) = >>=-eq-some (get_blocked progress sender mc s) _ e in
      let ((more, s2), own, e2) = >>=-eq-some (get_own progress sender mc s1) _ e1 in
      let (a, st) = get_blocked-Clear progress sender mc s s1 msgs blocked in
      let ((a', st'), keeps) = get_own-Clear progress sender mc s1 s2 more own in
      let same : s2 ≡ s' = ground arith in
      let shape : msgs ++ more ≡ replies = ground arith in
      subst (λ (x : SparseRecorder R). All (NoConflict s.staleness mc x.main_recorder) replies) same
        (subst (λ y. All (NoConflict s.staleness mc s2.main_recorder) y) shape
          (All-append (NoConflict s.staleness mc s2.main_recorder) msgs more
            (NoConflict-keeps s.staleness mc s1.main_recorder s2.main_recorder msgs keeps a)
            (subst (λ i. All (NoConflict i mc s2.main_recorder) more) st a')))

-- ===== src/Server/Recorder/Conflicts.antt =====
-- A Get that is answered ahead of the slowest worker shares no key with a version that is not over.
use flexps.Base.{
  ℕ, zero, suc, ◌+◌, ◌-◌, ◌≤◌, ◌<◌, ◌≡◌, sym, ap, ◌∙◌, subst, List, [], ◌∷◌, ◌++◌, Option, none,
  some, true, false, All, All-append, arith, >>=-eq-some, Bool-cases, inl, inr, ◌⊎◌, ◌==◌,
}
use flexps.Message.{Message, Platform}
use flexps.Server.Recorder.{
  MainRecorder, SparseRecorder, first_recorded, has_conflict, keys_of, reply_or_forward,
  reply_or_forward_all, handle_too_fast_buffer,
}

module _ {R : Type 0} ⦃c : MainRecorder R⦄ where
  -- None of the keys is recorded at the version.
  abbrev pub Unrecorded : List ℕ → ℕ → R → Type 0
  Unrecorded keys version r = All (λ key. c.recorded version key r ≡ some false) keys

  first_recorded_lem :
      (keys : List ℕ) (version : ℕ) (r : R) (found : Option ℕ)
      → first_recorded keys version r ≡ some found
      → ((found ≡ none) × Unrecorded keys version r)
        ⊎ ((key : ℕ) × (found ≡ some key) × (c.recorded version key r ≡ some true))
  unfolding first_recorded
  first_recorded_lem [] version r found e = inl (ground arith, tt)
  first_recorded_lem (key ∷ keys) version r found e =
      let (hit, h, e1) = >>=-eq-some (c.recorded version key r) _ e in
      elim (Bool-cases hit) [
        | inl held ↦ inr (key, ground arith, h ∙ ap some held)
        | inr free ↦
            let e2 : first_recorded keys version r ≡ some found = rw (free, first_recorded) at e1 in
            elim (first_recorded_lem keys version r found e2) [
              | inl (nothing, a) ↦ inl (nothing, (h ∙ ap some free, a))
              | inr found_later ↦ inr found_later
            ]
      ]

  -- What `HasConflict` answers: no version in the range has one of the keys, or the last one that has
  -- one, with that key.
  abbrev pub Conflict : List ℕ → ℕ → ℕ → R → Option (ℕ × ℕ) → Type 0
  Conflict keys begin_version n r conflict =
      ((conflict ≡ none)
        × ((v : ℕ) → begin_version ≤ v → v < begin_version + n → Unrecorded keys v r))
      ⊎ ((v : ℕ) × (key : ℕ) × (conflict ≡ some (v, key))
          × (begin_version ≤ v)
          × (v < begin_version + n)
          × (c.recorded v key r ≡ some true)
          × ((v' : ℕ) → v < v' → v' < begin_version + n → Unrecorded keys v' r))

  -- A successful `HasConflict` answers that no version from the first to the last has one of the keys,
  -- or the last version that has one, with such a key.
  pub has_conflict-Conflict :
      (keys : List ℕ) (begin_version n : ℕ) (r : R) (conflict : Option (ℕ × ℕ))
      → has_conflict keys begin_version n r ≡ some conflict
      → Conflict keys begin_version n r conflict
  unfolding has_conflict
  has_conflict-Conflict keys b zero r conflict e =
      inl (ground arith, λ v lo hi. absurd (omega arith))
  has_conflict-Conflict keys b (suc n) r conflict e =
      let (found, first, e1) = >>=-eq-some (first_recorded keys (b + n) r) _ e in
      elim (first_recorded_lem keys (b + n) r found first) [
        | inr (key, hit, held) ↦ inr (
          b + n,
          key,
          ground arith,
          omega arith,
          omega arith,
          held,
          λ v' lo hi. absurd (omega (arith, lo, hi)),
        )
        | inl (nothing, here) ↦
            let e2 : has_conflict keys b n r ≡ some conflict = rw (nothing, has_conflict) at e1 in
            let at_last : (v : ℕ) → v ≡ b + n → Unrecorded keys v r =
              λ v same. subst (λ i. Unrecorded keys i r) (sym same) here in
            elim (has_conflict-Conflict keys b n r conflict e2) [
              | inl (no_conflict, below) ↦ inl (
                no_conflict,
                λ v lo hi. elim (Bool-cases (v == b + n)) [
                  | inl same ↦ at_last v (ground arith)
                  | inr other ↦ below v lo (ground arith)
                ],
              )
              | inr (v, key, hit, lo, hi, held, above) ↦ inr (
                v,
                key,
                hit,
                lo,
                omega (arith, hi),
                held,
                λ v' lo' hi'. elim (Bool-cases (v' == b + n)) [
                  | inl same ↦ at_last v' (ground arith)
                  | inr other ↦ above v' lo' (ground arith)
                ],
              )
            ]
      ]

  Unrecorded-keeps :
      (keys : List ℕ) (v : ℕ) (r r' : R)
      → ((k : ℕ) → c.recorded v k r' ≡ c.recorded v k r)
      → Unrecorded keys v r
      → Unrecorded keys v r'
  Unrecorded-keeps [] v r r' same a = tt
  Unrecorded-keeps (k ∷ keys) v r r' same a = (same k ∙ a.0, Unrecorded-keeps keys v r r' same a.1)

module _ {R : Type 0} ⦃p : Platform⦄ ⦃c : MainRecorder R⦄ where
  -- No key of the Get is recorded at a version from `min_clock` on that is older than the Get by more
  -- than the staleness.
  abbrev pub NoConflict : ℕ → ℕ → R → Message → Type 0
  NoConflict staleness min_clock r msg =
      (keys : List ℕ)
      → keys_of msg.body ≡ some keys
      → (v : ℕ) → min_clock ≤ v
      → v < msg.version - staleness
      → Unrecorded keys v r

  -- The same keys are recorded at the same versions.
  abbrev pub SameRecords : R → R → Type 0
  SameRecords r r' = (v k : ℕ) → c.recorded v k r' ≡ c.recorded v k r

  pub NoConflict-keeps :
      (staleness min_clock : ℕ) (r r' : R) (msgs : List Message)
      → SameRecords r r'
      → All (NoConflict staleness min_clock r) msgs
      → All (NoConflict staleness min_clock r') msgs
  NoConflict-keeps st mc r r' [] same a = tt
  NoConflict-keeps st mc r r' (msg ∷ msgs) same a = (
    (λ keys e v lo hi. Unrecorded-keeps keys v r r' (same v) (a.0 keys e v lo hi)),
    NoConflict-keeps st mc r r' msgs same a.1,
  )

  pub reply_or_forward-NoConflict :
      (st mc : ℕ) (msg : Message) (r r' : R) (replies : List Message)
      → reply_or_forward st mc msg r ≡ some (replies, r')
      → All (NoConflict st mc r') replies × SameRecords r r'
  unfolding reply_or_forward
  reply_or_forward-NoConflict st mc msg r r' replies e =
      let n = msg.version - st - mc in
      let (keys, ek, e1) = >>=-eq-some (keys_of msg.body) _ e in
      let (conflict, h, e2) = >>=-eq-some (has_conflict keys mc n r) _ e1 in
      elim (has_conflict-Conflict keys mc n r conflict h) [
        | inl (nothing, clear) ↦
            let same : r ≡ r' = ground arith in
            let shape : replies ≡ msg ∷ [] = ground arith in
            (
              subst (λ y. All (NoConflict st mc r') y) (sym shape)
                  (
                    (λ keys' ek' v lo hi.
                        let one : keys ≡ keys' = ground arith in
                        subst (λ x. Unrecorded x v r') one
                          (subst (λ x. Unrecorded keys v x) same
                            (clear v lo (omega (arith, hi, lo))))),
                    tt,
                  ),
              λ v k. ap (λ x. c.recorded v k x) (sym same),
            )
        | inr (v, key, hit, lo, hi, held, above) ↦
            let (r1, moved, e3) = >>=-eq-some (c.forward v key msg r) _ (rw hit at e2) in
            let same : r1 ≡ r' = ground arith in
            let shape : replies ≡ [] = ground arith in
            (
              subst (λ y. All (NoConflict st mc r') y) (sym shape) tt,
              λ v' k'.
                  ap (λ x. c.recorded v' k' x) (sym same)
                  ∙ c.forward_keeps v key msg r r1 held moved v' k',
            )
      ]

  pub reply_or_forward_all-NoConflict :
      (st mc : ℕ) (msgs replies : List Message) (r r' : R)
      → reply_or_forward_all st mc msgs r ≡ some (replies, r')
      → All (NoConflict st mc r') replies × SameRecords r r'
  unfolding reply_or_forward_all
  reply_or_forward_all-NoConflict st mc [] replies r r' e =
      let same : r ≡ r' = ground arith in
      let shape : replies ≡ [] = ground arith in
      (
        subst (λ y. All (NoConflict st mc r') y) (sym shape) tt,
        λ v k. ap (λ x. c.recorded v k x) (sym same),
      )
  reply_or_forward_all-NoConflict st mc (msg ∷ msgs) replies r r' e =
      let ((now, r1), first, e1) = >>=-eq-some (reply_or_forward st mc msg r) _ e in
      let ((more, r2), rest, e2) = >>=-eq-some (reply_or_forward_all st mc msgs r1) _ e1 in
      let (a, keeps) = reply_or_forward-NoConflict st mc msg r r1 now first in
      let (a', keeps') = reply_or_forward_all-NoConflict st mc msgs more r1 r2 rest in
      let same : r2 ≡ r' = ground arith in
      let shape : replies ≡ now ++ more = ground arith in
      (
        subst (λ x. All (NoConflict st mc x) replies) same
            (subst (λ y. All (NoConflict st mc r2) y) (sym shape)
              (All-append (NoConflict st mc r2) now more (NoConflict-keeps st mc r1 r2 now keeps' a)
                a')),
        λ v k. ap (λ x. c.recorded v k x) (sym same) ∙ keeps' v k ∙ keeps v k,
      )

  -- `HandleTooFastBuffer`, if it does not abort, empties the buffer. It answers only Gets none of whose
  -- keys is recorded at a version from `min_clock` on that is older than the Get by more than the
  -- staleness, and it changes which keys are recorded at no version.
  pub handle_too_fast_buffer-NoConflict :
      (min_clock : ℕ) (s s' : SparseRecorder R) (replies : List Message)
      → handle_too_fast_buffer min_clock s ≡ some (replies, s')
      → All (NoConflict s.staleness min_clock s'.main_recorder) replies
        × (s'.too_fast_buffer ≡ [])
        × ((v k : ℕ) → c.recorded v k s'.main_recorder ≡ c.recorded v k s.main_recorder)
  unfolding handle_too_fast_buffer
  handle_too_fast_buffer-NoConflict mc s s' replies e =
      let ((msgs, r), handled, e1) =
        >>=-eq-some (reply_or_forward_all s.staleness mc s.too_fast_buffer s.main_recorder) _ e in
      let (a, keeps) =
        reply_or_forward_all-NoConflict s.staleness mc s.too_fast_buffer msgs s.main_recorder r
          handled in
      let same : r ≡ s'.main_recorder = ground arith in
      let shape : msgs ≡ replies = ground arith in
      (
        subst (λ y. All (NoConflict s.staleness mc s'.main_recorder) y) shape
            (subst (λ x. All (NoConflict s.staleness mc x) msgs) same a),
        ground arith,
        λ v k. ap (λ x. c.recorded v k x) (sym same) ∙ keeps v k,
      )

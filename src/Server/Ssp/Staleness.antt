-- ===== src/Server/Ssp/Staleness.antt =====
-- When an SSP server answers a Get.
use flexps.Base.{
  ℕ, ◌+◌, ◌-◌, ◌≤◌, ◌<◌, ◌≡◌, sym, ◌∙◌, List, [], ◌∷◌, some, ◌>>=◌, arith, Option-cases, inl, inr,
  ◌⊎◌, >>=-eq-some, add_u32_exact, sub_u32_exact, u32_mod,
}
use flexps.Message.{Message, Platform}
use flexps.Server.Tracker.{
  ProgressTracker, advance_and_get_changed_min_clock, get_progress as progress_of,
}
use flexps.Server.Tracker.Minimum.{advance-Advances}
use flexps.Server.PendingBuffer.{pop, push, waiting, waiting-push, waiting-pop, pop-waiting}
use flexps.Server.Storage
use flexps.Server.Storage.{StorageClass}
use flexps.Server.Ssp.{SspModel, clock, get, release}

-- No request waits for a clock that the minimum has reached.
abbrev pub NoneOverdue : {S : Type 0} → SspModel S → Type 0
NoneOverdue m = (k : ℕ) → k ≤ m.progress_tracker.min_clock → waiting k m.buffer ≡ []

-- The clocks are far enough from 2^32 that no sum wraps.
pub record Fits {S : Type 0} (m : SspModel S) : Type 0 where
  pub min_fits : m.progress_tracker.min_clock + m.staleness < u32_mod
  pub progress_fits : (tid : ℕ) (p : ℕ) → progress_of tid m.progress_tracker ≡ some p → p < u32_mod

module _ {S : Type 0} ⦃p : Platform⦄ ⦃c : StorageClass S⦄ where
  -- A Get is answered at once if its sender is at most `staleness` clocks ahead of the minimum, and
  -- otherwise waits for the clock `q - staleness`.
  pub get_cases :
      (msg : Message) (m : SspModel S) (q : ℕ)
      → Fits m
      → progress_of msg.sender m.progress_tracker ≡ some q
      → (q ≤ m.progress_tracker.min_clock + m.staleness)
          × (get msg m ≡ (
              Storage.get msg m.storage >>= λ (reply, s).
              some (reply ∷ [], record m { storage = s })))
        ⊎ (m.progress_tracker.min_clock + m.staleness < q)
          × (get msg m ≡ some ([], record m { buffer = push (q - m.staleness) msg m.buffer }))
  unfolding get
  get_cases msg m q fits e = ground (
    arith,
    add_u32_exact m.progress_tracker.min_clock m.staleness fits.min_fits,
    sub_u32_exact q m.staleness (fits.progress_fits msg.sender q e),
  )

  -- The two ways in which a Clock succeeds.
  abbrev pub Releases : SspModel S → ℕ → List Message → SspModel S → Type 0
  Releases m k replies m' =
      (s : S) × (Storage.get_all (waiting k m.buffer) m.storage ≡ some (replies, s))
      × (m'.storage ≡ c.finish_iter s)
      × (m'.progress_tracker.min_clock ≡ k)
      × (m'.buffer ≡ (pop k m.buffer).1)

  release-Releases :
      (k : ℕ) (t : ProgressTracker) (m m' : SspModel S) (replies : List Message)
      → release k t m ≡ some (replies, m')
      → t.min_clock ≡ k
      → Releases m k replies m'
  unfolding release
  release-Releases k t m m' replies e et =
      let (r, done, e1) = >>=-eq-some (Storage.get_all (pop k m.buffer).0 m.storage) _ e in
      (r.1, rw (← pop-waiting k m.buffer) (ground arith), ground arith, ground arith, ground arith)

  -- A successful Clock leaves the minimum, the buffer and the storage and answers nothing, or it moves
  -- the minimum by one, answers the requests that wait for the new minimum, in their order, and takes
  -- them out of the buffer.
  pub clock_cases :
      (msg : Message) (m m' : SspModel S) (replies : List Message)
      → clock msg m ≡ some (replies, m')
      → ((m'.progress_tracker.min_clock ≡ m.progress_tracker.min_clock)
          × (replies ≡ [])
          × (m'.buffer ≡ m.buffer)
          × (m'.storage ≡ m.storage))
        ⊎ Releases m (m.progress_tracker.min_clock + 1) replies m'
  unfolding clock
  clock_cases msg m m' replies e =
      let (r, moved, e1) =
        >>=-eq-some (advance_and_get_changed_min_clock msg.sender m.progress_tracker) _ e in
      elim (advance-Advances msg.sender m.progress_tracker r.1 r.0 moved).1 [
        | inl (unchanged, same) ↦ inl (ground arith, ground arith, ground arith, ground arith)
        | inr (changed, up) ↦
            inr (
              release-Releases (m.progress_tracker.min_clock + 1) r.1 m m' replies (ground arith)
                up)
      ]

  -- The two ways in which a Get succeeds.
  abbrev pub Gets : Message → SspModel S → ℕ → List Message → SspModel S → Type 0
  Gets msg m q replies m' =
      ((q ≤ m.progress_tracker.min_clock + m.staleness)
        × ((reply : Message) × (replies ≡ reply ∷ [])
            × (Storage.get msg m.storage ≡ some (reply, m'.storage)))
        × (m'.buffer ≡ m.buffer))
      ⊎ ((m.progress_tracker.min_clock + m.staleness < q)
          × (replies ≡ [])
          × (m'.buffer ≡ push (q - m.staleness) msg m.buffer))

  -- While no clock wraps, a successful Get leaves the clocks alone. It answers at once if its sender is at most
  -- `staleness` clocks ahead of the minimum, and otherwise waits for the clock `q - staleness`.
  pub get-Gets :
      (msg : Message) (m m' : SspModel S) (replies : List Message)
      → Fits m
      → get msg m ≡ some (replies, m')
      → (q : ℕ) × (progress_of msg.sender m.progress_tracker ≡ some q)
        × (m'.progress_tracker ≡ m.progress_tracker)
        × (m'.staleness ≡ m.staleness)
        × Gets msg m q replies m'
  get-Gets msg m m' replies fits e =
      elim (Option-cases (progress_of msg.sender m.progress_tracker)) [
        | inl missing ↦ absurd (unfold get in ground arith)
        | inr (q, found) ↦ elim (get_cases msg m q fits found) [
          | inl (near, eg) ↦
              let (r, done, e1) = >>=-eq-some (Storage.get msg m.storage) _ (sym eg ∙ e) in
              (
                q,
                found,
                ground arith,
                ground arith,
                inl (near, (r.0, ground arith, ground arith), ground arith),
              )
          | inr (far, eg) ↦
              (q, found, ground arith, ground arith, inr (far, ground arith, ground arith))
        ]
      ]

  -- While no clock wraps, a successful Get leaves no request waiting for a clock that the minimum has
  -- reached, if none was.
  pub get-NoneOverdue :
      (msg : Message) (m m' : SspModel S) (replies : List Message)
      → Fits m
      → NoneOverdue m
      → get msg m ≡ some (replies, m')
      → NoneOverdue m'
  get-NoneOverdue msg m m' replies fits v e =
      let (q, found, et, es, how) = get-Gets msg m m' replies fits e in
      elim how [
        | inl (_, _, eb) ↦ λ k h. ground (arith, v k)
        | inr (far, _, eb) ↦
            λ k h. ground (arith, v k, waiting-push k (q - m.staleness) msg m.buffer)
      ]

  -- A successful Clock leaves no request waiting for a clock that the minimum has reached, if none was.
  pub clock-NoneOverdue :
      (msg : Message) (m m' : SspModel S) (replies : List Message)
      → NoneOverdue m
      → clock msg m ≡ some (replies, m')
      → NoneOverdue m'
  clock-NoneOverdue msg m m' replies v e = elim (clock_cases msg m m' replies e) [
    | inl (same, _, eb, _) ↦ λ k h. ground (arith, v k)
    | inr (_, _, _, up, eb) ↦
        λ k h. ground (arith, v k, waiting-pop k (m.progress_tracker.min_clock + 1) m.buffer)
  ]

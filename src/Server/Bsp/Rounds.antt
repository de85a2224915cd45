-- ===== src/Server/Bsp/Rounds.antt =====
-- The rounds of a BSP server: no thread is more than one clock ahead of another.
use flexps.Base.{
  ℕ, ◌+◌, ◌≤◌, ◌≡◌, List, [], ◌∷◌, Option, none, some, Dict, put, All, check, leb, arith, inl, inr,
  ◌⊎◌, >>=-eq-some, check-eq-some, find-put, leb→le,
}
use flexps.Message.{Message, Platform}
use flexps.Server.Tracker.{
  ProgressTracker, advance_and_get_changed_min_clock, get_progress as progress_of,
}
use flexps.Server.Tracker.Minimum.{IsMin, advance_cases, advance-IsMin, advance-Advances}
use flexps.Server.Storage
use flexps.Server.Storage.{StorageClass}
use flexps.Server.Bsp.{BspModel, clock, flush}

-- Every thread is at the minimum or one clock ahead of it.
abbrev pub Window : ProgressTracker → Type 0
Window t = All (λ e. (t.min_clock ≤ e.1) × (e.1 ≤ t.min_clock + 1)) t.progresses

abbrev Within : ℕ → Dict ℕ → Type 0
Within c m = All (λ e. e.1 ≤ c + 1) m

Within-put : (k q c : ℕ) (m : Dict ℕ) → Within c m → q ≤ c + 1 → Within c (put k q m)
Within-put k q c [] w h = (h, tt)
Within-put k q c (e ∷ m) w h = ground (arith, Within-put k q c m w.1 h)

Within-mono : (c d : ℕ) (m : Dict ℕ) → c ≤ d → Within c m → Within d m
Within-mono c d [] h w = tt
Within-mono c d (e ∷ m) h w = (omega (arith, w.0), Within-mono c d m h w.1)

window_parts : (c : ℕ) (m : Dict ℕ) → All (λ e. (c ≤ e.1) × (e.1 ≤ c + 1)) m → Within c m
window_parts c [] w = tt
window_parts c (e ∷ m) w = (w.0.1, window_parts c m w.1)

window_join :
    (c : ℕ) (m : Dict ℕ)
    → All (λ e. c ≤ e.1) m
    → Within c m
    → All (λ e. (c ≤ e.1) × (e.1 ≤ c + 1)) m
window_join c [] l w = tt
window_join c (e ∷ m) l w = ((l.0, w.0), window_join c m l.1 w.1)

advance-Window :
    (tid : ℕ) (t t' : ProgressTracker) (changed : Option ℕ) (q : ℕ)
    → IsMin t
    → Window t
    → advance_and_get_changed_min_clock tid t ≡ some (changed, t')
    → progress_of tid t' ≡ some q
    → q ≤ t'.min_clock + 1
    → Window t'
advance-Window tid t t' changed q v w e f h =
    let (o, found, em, _) = advance_cases tid t t' changed e in
    let up : t.min_clock ≤ t'.min_clock = ground (arith, (advance-Advances tid t t' changed e).1) in
    let eq : q ≡ o + 1 = ground (arith, find-put tid tid (o + 1) t.progresses) in
    window_join t'.min_clock t'.progresses (advance-IsMin tid t t' changed v e).lower (
      rw em (
        Within-put tid (o + 1) t'.min_clock t.progresses
          (Within-mono t.min_clock t'.min_clock t.progresses up
            (window_parts t.min_clock t.progresses w))
          (omega arith)))

module _ {S : Type 0} ⦃p : Platform⦄ ⦃c : StorageClass S⦄ where
  -- The end of a round: the additions in their order of arrival, then the replies.
  abbrev pub Flushes : ProgressTracker → BspModel S → List Message → BspModel S → Type 0
  Flushes t m replies m' =
      (s : S) × (s' : S) × (Storage.add_all m.add_buffer m.storage ≡ some s)
      × (Storage.get_all m.get_buffer s ≡ some (replies, s'))
      × (m'.storage ≡ c.finish_iter s')
      × (m'.progress_tracker ≡ t)
      × (m'.get_buffer ≡ [])
      × (m'.add_buffer ≡ [])

  flush-Flushes :
      (t : ProgressTracker) (m m' : BspModel S) (replies : List Message)
      → flush t m ≡ some (replies, m')
      → Flushes t m replies m'
  unfolding flush
  flush-Flushes t m m' replies e =
      let (s, added, e1) = >>=-eq-some (Storage.add_all m.add_buffer m.storage) _ e in
      let (r, got, e2) = >>=-eq-some (Storage.get_all m.get_buffer s) _ e1 in
      (s, r.1, added, ground arith, ground arith, ground arith, ground arith, ground arith)

  abbrev pub Clocks : Option ℕ → ProgressTracker → BspModel S → List Message → BspModel S → Type 0
  Clocks changed t m replies m' =
      ((changed ≡ none) × (replies ≡ []) × (m' ≡ record m { progress_tracker = t }))
      ⊎ ((changed ≡ some t.min_clock) × Flushes t m replies m')

  -- A Clock that succeeds moves its sender, to at most one clock ahead of the minimum. It ends the
  -- round if and only if the minimum moves.
  pub clock_cases :
      (msg : Message) (m m' : BspModel S) (replies : List Message)
      → clock msg m ≡ some (replies, m')
      → (changed : Option ℕ) × (t : ProgressTracker) × (advance_and_get_changed_min_clock msg.sender
            m.progress_tracker
          ≡ some (changed, t))
        × ((q : ℕ) × (progress_of msg.sender t ≡ some q) × (q ≤ t.min_clock + 1))
        × Clocks changed t m replies m'
  unfolding clock
  clock_cases msg m m' replies e =
      let (r, moved, e1) =
        >>=-eq-some (advance_and_get_changed_min_clock msg.sender m.progress_tracker) _ e in
      let (q, found, e2) = >>=-eq-some (progress_of msg.sender r.1) _ e1 in
      let (u, near, e3) = >>=-eq-some (check (leb q (r.1.min_clock + 1))) _ e2 in
      (
        r.0,
        r.1,
        moved,
        (q, found, leb→le q (r.1.min_clock + 1) (check-eq-some _ near)),
        elim (advance-Advances msg.sender m.progress_tracker r.1 r.0 moved).1 [
          | inl (unchanged, _) ↦ inl (unchanged, ground arith, ground arith)
          | inr (changed, _) ↦ inr (changed, flush-Flushes r.1 m m' replies (ground arith))
        ],
      )

  -- A Clock that does not abort keeps `min_clock_` the least progress, and every thread at most one
  -- clock ahead of it.
  pub clock-Window :
      (msg : Message) (m m' : BspModel S) (replies : List Message)
      → IsMin m.progress_tracker
      → Window m.progress_tracker
      → clock msg m ≡ some (replies, m')
      → IsMin m'.progress_tracker × Window m'.progress_tracker
  clock-Window msg m m' replies v w e =
      let (changed, t, moved, (q, found, near), how) = clock_cases msg m m' replies e in
      let et : m'.progress_tracker ≡ t = ground arith in
      rw et (
        advance-IsMin msg.sender m.progress_tracker t changed v moved,
        advance-Window msg.sender m.progress_tracker t changed q v w moved found near,
      )

-- ===== src/Server/Tracker/Minimum.antt =====
-- `min_clock_` is the least progress of any thread.
use flexps.Base.{
  ℕ, ◌+◌, ◌≤◌, ◌<◌, ◌≡◌, ◌≢◌, List, [], ◌∷◌, Option, none, some, true, false, Dict, find, find_or,
  put, insert, All, ltb, ◌==◌, if◌then◌else◌, arith, Ascending, find-Above, put-Ascending,
  insert-Ascending, find-put, All-find, Option-cases, inl, inr, ◌⊎◌, mem, find-insert, ==_refl, ◌∙◌,
  ◌↔◌,
}
use flexps.Server.Tracker.{
  ProgressTracker, init, insert_all, at_most_one, get_progress, advance_and_get_changed_min_clock,
}

abbrev pub Lower : ℕ → Dict ℕ → Type 0
Lower c m = All (λ e. c ≤ e.1) m

-- The number of threads at the clock `c`.
abbrev pub count_at : ℕ → Dict ℕ → ℕ
count_at c [] = 0
count_at c ((tid, p) ∷ m) = (if p == c then 1 else 0) + count_at c m

-- No thread is below `min_clock`, and some thread is at it.
pub record IsMin (t : ProgressTracker) : Type 0 where
  pub ascending : Ascending t.progresses
  pub lower : Lower t.min_clock t.progresses
  pub attained : 0 < count_at t.min_clock t.progresses

at_most_one-count :
    (c n : ℕ) (m : Dict ℕ)
    → n ≤ 1
    → at_most_one c n m ≡ (if ltb 1 (n + count_at c m) then false else true)
unfolding at_most_one
at_most_one-count c n [] h = ground arith
at_most_one-count c n (e ∷ m) h =
    ground (arith, at_most_one-count c n m, at_most_one-count c (n + 1) m)

count_at_found : (k c : ℕ) (m : Dict ℕ) → find k m ≡ some c → 0 < count_at c m
count_at_found k c [] e = cc
count_at_found k c (x ∷ m) e = ground (arith, count_at_found k c m)

Lower-put : (k c p : ℕ) (m : Dict ℕ) → Lower c m → c ≤ p → Lower c (put k p m)
Lower-put k c p [] l h = (h, tt)
Lower-put k c p (e ∷ m) l h = ground (arith, Lower-put k c p m l.1 h)

-- A clock that no thread shows bounds from below with one more.
Lower-suc : (c : ℕ) (m : Dict ℕ) → Lower c m → count_at c m ≡ 0 → Lower (c + 1) m
Lower-suc c [] l e = tt
Lower-suc c (x ∷ m) l e = ground (arith, Lower-suc c m l.1)

Lower-advance :
    (k c : ℕ) (m : Dict ℕ)
    → Ascending m
    → Lower c m
    → find k m ≡ some c
    → count_at c m ≤ 1
    → Lower (c + 1) (put k (c + 1) m)
Lower-advance k c [] a l e h = cc
Lower-advance k c ((j, p) ∷ m) a l e h = ground (
  arith,
  Lower-advance k c m a.1 l.1,
  Lower-suc c m l.1,
  find-Above k j m a.0,
  count_at_found k c m,
)

count_at-put_new : (k c : ℕ) (m : Dict ℕ) → 0 < count_at c (put k c m)
count_at-put_new k c [] = ground arith
count_at-put_new k c (e ∷ m) = ground (arith, count_at-put_new k c m)

-- A thread that moves on takes one from the count at its own clock.
count_at-put_suc :
    (k c p : ℕ) (m : Dict ℕ)
    → Ascending m
    → find k m ≡ some p
    → count_at c m ≤ count_at c (put k (p + 1) m) + (if p == c then 1 else 0)
count_at-put_suc k c p [] a e = cc
count_at-put_suc k c p ((j, q) ∷ m) a e =
    ground (arith, count_at-put_suc k c p m a.1, find-Above k j m a.0)

Lower-insert : (tid : ℕ) (m : Dict ℕ) → Lower 0 m → Lower 0 (insert tid 0 m)
Lower-insert tid m l = ground (arith, Lower-put tid 0 0 m l)

init_entries :
    (tids : List ℕ) (m : Dict ℕ)
    → Ascending m
    → Lower 0 m
    → Ascending (insert_all tids m) × Lower 0 (insert_all tids m)
unfolding insert_all
init_entries [] m a l = (a, l)
init_entries (tid ∷ tids) m a l =
    init_entries tids (insert tid 0 m) (insert-Ascending tid 0 m a) (Lower-insert tid m l)

-- Every thread that `Init` names is there, at the clock 0, and no other is.
find-insert_all :
    (k : ℕ) (tids : List ℕ) (m : Dict ℕ)
    → find k (insert_all tids m)
      ≡ elim (find k m) [ some v ↦ some v | none ↦ if mem k tids then some 0 else none ]
unfolding insert_all
find-insert_all k [] m = ground arith
find-insert_all k (tid ∷ tids) m =
    ground (arith, find-insert_all k tids (insert tid 0 m), find-insert k tid 0 m)

-- `Init` with a thread at all leaves `min_clock_` the least progress.
pub init-IsMin : (tid : ℕ) (tids : List ℕ) → IsMin (init (tid ∷ tids))
unfolding init insert_all
init-IsMin tid tids = record {
  ascending = (init_entries (tid ∷ tids) [] tt tt).0;
  lower = (init_entries (tid ∷ tids) [] tt tt).1;
  attained = count_at_found tid 0 _ (find-insert_all tid (tid ∷ tids) [] ∙ rw (==_refl tid));
}

-- What a Clock does: `tid` moves on by one, no other thread moves, and the answer is the new
-- minimum if and only if the minimum moved.
abbrev pub Advances : ℕ → ProgressTracker → Option ℕ → ProgressTracker → Type 0
Advances tid t changed t' =
    ((j : ℕ)
      → get_progress j t'
        ≡ (if j == tid then some (find_or tid 0 t.progresses + 1) else get_progress j t))
    × ((changed ≡ none) × (t'.min_clock ≡ t.min_clock)
        ⊎ (changed ≡ some t'.min_clock) × (t'.min_clock ≡ t.min_clock + 1))

-- The two ways in which a Clock succeeds.
abbrev pub Moves : ℕ → ProgressTracker → Option ℕ → ProgressTracker → Type 0
Moves p t changed t' =
    ((p ≡ t.min_clock)
      × (count_at t.min_clock t.progresses ≤ 1)
      × (changed ≡ some (t.min_clock + 1))
      × (t'.min_clock ≡ t.min_clock + 1))
    ⊎ ((p ≢ t.min_clock) ⊎ (1 < count_at t.min_clock t.progresses))
      × (changed ≡ none)
      × (t'.min_clock ≡ t.min_clock)

pub advance_cases :
    (tid : ℕ) (t t' : ProgressTracker) (changed : Option ℕ)
    → advance_and_get_changed_min_clock tid t ≡ some (changed, t')
    → (p : ℕ) × (find tid t.progresses ≡ some p)
      × (t'.progresses ≡ put tid (p + 1) t.progresses)
      × Moves p t changed t'
unfolding advance_and_get_changed_min_clock
advance_cases tid t t' changed e = elim (Option-cases (find tid t.progresses)) [
  | inl missing ↦ absurd (ground arith)
  | inr (p, found) ↦
      (p, found, ground arith, ground (arith, at_most_one-count t.min_clock 0 t.progresses))
]

-- The entries after a Clock, as `IsMin` sees them at the bound `c`.
entries_IsMin :
    (c : ℕ) (m : Dict ℕ) (t : ProgressTracker)
    → t.min_clock ≡ c
    → t.progresses ≡ m
    → Ascending m
    → Lower c m
    → 0 < count_at c m
    → IsMin t
entries_IsMin c m t ec em a l n = record {
  ascending = rw em a;
  lower = rw (ec, em) l;
  attained = rw (ec, em) n;
}

-- A Clock that succeeds keeps `min_clock_` the least progress of any thread.
pub advance-IsMin :
    (tid : ℕ) (t t' : ProgressTracker) (changed : Option ℕ)
    → IsMin t
    → advance_and_get_changed_min_clock tid t ≡ some (changed, t')
    → IsMin t'
advance-IsMin tid t t' changed v e =
    let (p, found, em, moves) = advance_cases tid t t' changed e in
    let a = put-Ascending tid (p + 1) t.progresses v.ascending in
    elim moves [
      | inl (at_min, single, _, ec) ↦
          entries_IsMin (t.min_clock + 1) (put tid (p + 1) t.progresses) t' ec em a
            (rw at_min (
              Lower-advance tid t.min_clock t.progresses v.ascending v.lower (rw (← at_min) found)
                single))
            (rw at_min (count_at-put_new tid (t.min_clock + 1) t.progresses))
      | inr (other, _, ec) ↦
          entries_IsMin t.min_clock (put tid (p + 1) t.progresses) t' ec em a
            (Lower-put tid t.min_clock (p + 1) t.progresses v.lower
              (omega (arith, All-find (λ x. t.min_clock ≤ x.1) tid t.progresses v.lower found)))
            (ground
              (arith, v.attained, count_at-put_suc tid t.min_clock p t.progresses v.ascending))
    ]

-- A Clock that succeeds moves its thread on by one, a thread of the map or not, and no other; it
-- moves the minimum by one and answers the new minimum, or leaves the minimum and answers nothing.
pub advance-Advances :
    (tid : ℕ) (t t' : ProgressTracker) (changed : Option ℕ)
    → advance_and_get_changed_min_clock tid t ≡ some (changed, t')
    → Advances tid t changed t'
unfolding advance_and_get_changed_min_clock
advance-Advances tid t t' changed e = (
  λ j. ground (arith, find-put j tid (find_or tid 0 t.progresses + 1) t.progresses),
  ground arith,
)

-- A Clock fails if and only if its thread is not in the map.
pub advance_fails_iff :
    (tid : ℕ) (t : ProgressTracker)
    → (advance_and_get_changed_min_clock tid t ≡ none) ↔ (find tid t.progresses ≡ none)
unfolding advance_and_get_changed_min_clock
advance_fails_iff tid t = ground arith

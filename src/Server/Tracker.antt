-- ===== src/Server/Tracker.antt =====
-- server/progress_tracker.hpp and .cpp: the clock of each worker thread, and their minimum.
pub mod Minimum
use flexps.Base.{
  ℕ, ◌+◌, List, [], ◌∷◌, Option, none, some, Bool, true, false, Dict, find, contains, find_or, put,
  insert, length, ltb, ◌==◌, if◌then◌else◌, ◌>>=◌,
}

-- `min_clock_` is indeterminate until `Init`, which every model calls before it is used.
pub record ProgressTracker : Type 0 where
  pub progresses : Dict ℕ
  pub min_clock : ℕ

-- The loop of `Init`.
insert_all : List ℕ → Dict ℕ → Dict ℕ
insert_all [] m = m
insert_all (tid ∷ tids) m = insert_all tids (insert tid 0 m)

unfoldable pub init : List ℕ → ProgressTracker
unfolding insert_all
init tids = record { progresses = insert_all tids []; min_clock = 0 }

abbrev pub get_num_threads : ProgressTracker → ℕ
get_num_threads t = length t.progresses

abbrev pub check_thread_valid : ℕ → ProgressTracker → Bool
check_thread_valid tid t = contains tid t.progresses

-- A thread that is not valid fails the CHECK.
abbrev pub get_progress : ℕ → ProgressTracker → Option ℕ
get_progress tid t = find tid t.progresses

abbrev pub get_min_clock : ProgressTracker → ℕ
get_min_clock t = t.min_clock

-- The loop of `IsUniqueMin`: `n` entries at the clock `c` were met so far.
at_most_one : ℕ → ℕ → Dict ℕ → Bool
at_most_one c n [] = true
at_most_one c n ((tid, p) ∷ m) =
    let n' = if p == c then n + 1 else n in
    let rest = at_most_one c n' m in if ltb 1 n' then false else rest

unfoldable pub is_unique_min : ℕ → ProgressTracker → Option Bool
unfolding at_most_one
is_unique_min tid t = do
  p ← find tid t.progresses
  if p == t.min_clock then some (at_most_one t.min_clock 0 t.progresses) else some false

-- `progresses_[tid] += 1`
abbrev advance : ℕ → Dict ℕ → Dict ℕ
advance tid m = put tid (find_or tid 0 m + 1) m

-- `none` inside the result stands for the returned -1.
unfoldable pub advance_and_get_changed_min_clock :
    ℕ → ProgressTracker → Option (Option ℕ × ProgressTracker)
unfolding is_unique_min
advance_and_get_changed_min_clock tid t = do
  unique ← is_unique_min tid t
  if unique
      then some (some (t.min_clock + 1), record { progresses = m; min_clock = t.min_clock + 1 })
      else some (none, record t { progresses = m })
  where
    m : Dict ℕ
    m = advance tid t.progresses

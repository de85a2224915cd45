-- ===== src/Tests/Tracker.antt =====
-- Three threads, of which 5 alone is at the minimum.
use flexps.Base.{◌≡◌, refl, [], ◌∷◌, some, arith}
use flexps.Server.Tracker.{ProgressTracker, advance_and_get_changed_min_clock}
use flexps.Server.Tracker.Minimum.{IsMin, advance-IsMin}

abbrev three : ProgressTracker
three = record { progresses = (3, 2) ∷ (5, 1) ∷ (8, 4) ∷ []; min_clock = 1 }

abbrev moved : ProgressTracker
moved = record { progresses = (3, 2) ∷ (5, 2) ∷ (8, 4) ∷ []; min_clock = 2 }

three_moves : advance_and_get_changed_min_clock 5 three ≡ some (some 2, moved)
unfolding advance_and_get_changed_min_clock
three_moves = refl

advance-IsMin_example : IsMin moved
advance-IsMin_example =
    advance-IsMin 5 three moved (some 2)
      (record { ascending = omega arith; lower = omega arith; attained = omega arith }) three_moves

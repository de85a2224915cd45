-- ===== src/Comm/Barrier/Invariant.antt =====
-- What holds in every reachable state of the barriers.
use flexps.Base.{
  ℕ, ◌+◌, ◌≤◌, ◌<◌, ◌≡◌, ap, subst, List, [], ◌∷◌, ◌++◌, Bool, ltb, count, length, arith,
}
use flexps.Comm.Barrier.{Pc, System, entered, sent_to}

-- The versions that follow one another from `v` on.
abbrev pub From : ℕ → List ℕ → Type 0
From v [] = Unit
From v (w ∷ ws) = (w ≡ v) × From (v + 1) ws

pub From-append : (v w : ℕ) (vs : List ℕ) → From v vs → w ≡ v + length vs → From v (vs ++ w ∷ [])
From-append v w [] f e = (omega (arith, e), tt)
From-append v w (u ∷ vs) f e = (f.0, From-append (v + 1) w vs f.1 (omega (arith, e)))

-- Whether a node has seen more than `k` messages of each other node.
abbrev pub passed : ℕ → (ℕ → ℕ) → ℕ → Bool
passed k seen s = ltb k (seen s)

-- `seen s r` is the number of messages of `s` that have reached `r`.
pub record Inv (n : ℕ) (x : System) : Type 0 where
  pub seen : ℕ → ℕ → ℕ
  pub order : (s r : ℕ) → s < n → r < n → From (seen s r) (x.net s r)
  pub total :
      (s r : ℕ)
      → s < n
      → r < n
      → seen s r + length (x.net s r) ≡ sent_to (x.pc s) r (x.local s).progress
  pub low : (s r : ℕ) → s < n → r < n → (x.local r).progress ≤ seen s r
  pub this :
      (r : ℕ)
      → r < n
      → (x.local r).this_count ≡ count n (passed (x.local r).progress (λ s. seen s r))
  pub next :
      (r : ℕ)
      → r < n
      → (x.local r).next_count ≡ count n (passed ((x.local r).progress + 1) (λ s. seen s r))
  pub near :
      (i j : ℕ) → i < n → j < n → (x.local i).progress ≤ entered (x.pc j) (x.local j).progress

pub sent_to-entered : (pc : Pc) (r k : ℕ) → sent_to pc r k ≤ entered pc k
sent_to-entered Pc.idle r k = omega arith
sent_to-entered (Pc.sending j) r k = ground arith
sent_to-entered Pc.waiting r k = omega arith

pub entered_le : (pc : Pc) (k : ℕ) → entered pc k ≤ k + 1
entered_le Pc.idle k = omega arith
entered_le (Pc.sending j) k = omega arith
entered_le Pc.waiting k = omega arith

module _ {n : ℕ} {x : System} (v : Inv n x) where
  -- No node has seen more than two messages of another beyond its own progress.
  pub seen_le : (s r : ℕ) → s < n → r < n → v.seen s r ≤ (x.local r).progress + 2
  seen_le s r ls lr = omega (
    arith,
    v.total s r ls lr,
    sent_to-entered (x.pc s) r (x.local s).progress,
    entered_le (x.pc s) (x.local s).progress,
    v.near s r ls lr,
    entered_le (x.pc r) (x.local r).progress,
  )

  -- Nor more than one of its own.
  pub seen_self_le : (r : ℕ) → r < n → v.seen r r ≤ (x.local r).progress + 1
  seen_self_le r lr = omega (
    arith,
    v.total r r lr lr,
    sent_to-entered (x.pc r) r (x.local r).progress,
    entered_le (x.pc r) (x.local r).progress,
  )

  -- The version of a message that is on its way.
  pub head_seen :
      (s r w : ℕ) (rest : List ℕ)
      → s < n
      → r < n
      → x.net s r ≡ w ∷ rest
      → (w ≡ v.seen s r)
        × From (v.seen s r + 1) rest
        × (v.seen s r + 1 + length rest ≡ sent_to (x.pc s) r (x.local s).progress)
  head_seen s r w rest ls lr e =
      let f = subst (From (v.seen s r)) e (v.order s r ls lr) in
      (f.0, f.1, omega (arith, v.total s r ls lr, ap length e))

-- ===== src/Comm/Barrier.antt =====
-- The barriers of comm2/mailbox.cpp on `n` nodes at once: the thread of each node that calls
-- `Barrier`, its receiving thread, and the messages between them, which a connection keeps in their
-- order. The nodes are numbered from 0 on in the order of the list `nodes_`.
pub mod Invariant
pub mod Receive
pub mod Steps
pub mod Safety
use flexps.Base.{
  ℕ, ◌+◌, ◌<◌, ◌≡◌, List, [], ◌∷◌, ◌++◌, Option, some, Bool, true, false, ltb, ◌==◌, if◌then◌else◌,
  update,
}
use flexps.Comm.Mailbox.{BarrierState, on_barrier, barrier_done, leave_barrier}

-- Where a node stands in `Barrier`: outside, in the loop before the node `j`, or in the wait.
pub data Pc : Type 0 where
  idle : Pc
  sending : (j : ℕ) → Pc
  waiting : Pc

-- `net s r` holds the versions of the barrier messages on their way from `s` to `r`, oldest first.
pub record System : Type 0 where
  pub local : ℕ → BarrierState
  pub pc : ℕ → Pc
  pub net : ℕ → ℕ → List ℕ

-- `f` with another value at two indices.
abbrev pub update2 {ℓ} : {A : Type ℓ} → (ℕ → ℕ → A) → ℕ → ℕ → A → ℕ → ℕ → A
update2 f s r a s' r' = if s' == s then (if r' == r then a else f s' r') else f s' r'

-- One step of one thread.
pub data Step (n : ℕ) (x : System) : System → Type 0 where
  enter : (i : ℕ) → i < n → x.pc i ≡ idle → Step n x (record x { pc = update x.pc i (sending 0) })
  send :
      (i j : ℕ)
      → i < n
      → j < n
      → x.pc i ≡ sending j
      → Step n x (record x {
        pc = update x.pc i (sending (j + 1));
        net = update2 x.net i j (x.net i j ++ (x.local i).progress ∷ []);
      })
  sent : (i : ℕ) → i < n → x.pc i ≡ sending n → Step n x (record x { pc = update x.pc i waiting })
  receive :
      (s r v : ℕ) (rest : List ℕ) (b : BarrierState)
      → s < n
      → r < n
      → x.net s r ≡ v ∷ rest
      → on_barrier n v (x.local r) ≡ some b
      → Step n x (record x { local = update x.local r b; net = update2 x.net s r rest })
  leave :
      (i : ℕ)
      → i < n
      → x.pc i ≡ waiting
      → barrier_done n (x.local i) ≡ true
      → Step n x (record x {
        local = update x.local i (leave_barrier (x.local i));
        pc = update x.pc i idle;
      })

-- Before the first barrier.
abbrev pub start : System
start = record {
  local = λ _. record { this_count = 0; next_count = 0; progress = 0 };
  pc = λ _. idle;
  net = λ _ _. [];
}

pub data Reach (n : ℕ) : System → Type 0 where
  here : Reach n start
  later : {x y : System} → Reach n x → Step n x y → Reach n y

-- The number of barriers that a node has entered.
abbrev pub entered : Pc → ℕ → ℕ
entered idle progress = progress
entered (sending j) progress = progress + 1
entered waiting progress = progress + 1

-- Whether a node in a barrier has sent its message to the node `r`.
abbrev pub has_sent : Pc → ℕ → Bool
has_sent idle r = false
has_sent (sending j) r = ltb r j
has_sent waiting r = true

-- The number of barrier messages that a node has sent to the node `r`.
abbrev pub sent_to : Pc → ℕ → ℕ → ℕ
sent_to pc r progress = progress + (if has_sent pc r then 1 else 0)

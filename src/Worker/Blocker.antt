-- ===== src/Worker/Blocker.antt =====
-- worker/abstract_callback_runner.hpp, worker/app_blocker.hpp and .cpp, and the loop of
-- worker/worker_helper_thread.cpp: an app thread waits for the responses to its requests, which the
-- one worker helper thread counts while it runs the callbacks. The callbacks act on a state `C` of
-- the app thread; `none` is a failed CHECK or a call of an empty std::function.
pub mod Responses
pub mod Handles
use flexps.Base.{
  ℕ, List, [], ◌∷◌, Option, none, some, Bool, true, false, Dict, find, find_or, put, ◌==◌,
  if◌then◌else◌, ◌>>=◌, ◌>>◌, add_u32,
}
use flexps.Message.{Message, ThreadsafeQueue, is_exit}

-- A map from app threads to maps from models.
abbrev pub Dict2 {ℓ} : Type ℓ → Type ℓ
Dict2 V = Dict (Dict V)

module _ {ℓ} {V : Type ℓ} where
  abbrev pub find2 : ℕ → ℕ → Dict2 V → Option V
  find2 a m d = find m (find_or a [] d)

  -- `d[a][m] = v`
  abbrev pub put2 : ℕ → ℕ → V → Dict2 V → Dict2 V
  put2 a m v d = put a (put m v (find_or a [] d)) d

pub record AppBlocker (C : Type 0) : Type 0 where
  pub tracker : Dict2 (ℕ × ℕ)
  pub recv_handle : Dict2 (Message → C → Option C)
  pub recv_finish_handle : Dict2 (C → Option C)

module _ {C : Type 0} where
  -- `SanityCheck`: both handles are registered.
  unfoldable pub sanity_check : ℕ → ℕ → AppBlocker C → Option (Unit {0})
  sanity_check a m b = do _ ← find2 a m b.recv_handle; _ ← find2 a m b.recv_finish_handle; some tt

  unfoldable pub register_recv_handle :
      ℕ → ℕ → (Message → C → Option C) → AppBlocker C → AppBlocker C
  register_recv_handle a m h b = record b { recv_handle = put2 a m h b.recv_handle }

  unfoldable pub register_recv_finish_handle : ℕ → ℕ → (C → Option C) → AppBlocker C → AppBlocker C
  register_recv_finish_handle a m h b = record b {
    recv_finish_handle = put2 a m h b.recv_finish_handle;
  }

  unfoldable pub new_request : ℕ → ℕ → ℕ → AppBlocker C → Option (AppBlocker C)
  unfolding sanity_check
  new_request a m expected b = do
    sanity_check a m b
    some (record b { tracker = put2 a m (expected, 0) b.tracker })

  -- `tracker_[a][m]`, where a missing entry reads as `{0, 0}`.
  unfoldable pub tracked : ℕ → ℕ → AppBlocker C → ℕ × ℕ
  tracked a m b = elim (find2 a m b.tracker) [ none ↦ (0, 0) | some t ↦ t ]

  -- Whether the condition that `WaitRequest` waits for holds.
  unfoldable pub wait_request : ℕ → ℕ → AppBlocker C → Option Bool
  unfolding sanity_check
  wait_request a m b = do sanity_check a m b; some ((tracked a m b).0 == (tracked a m b).1)

  -- The first locked part of `AddResponse`: whether this response is the last.
  abbrev pub recv_finish : ℕ → ℕ → AppBlocker C → Bool
  recv_finish a m b = (tracked a m b).0 == add_u32 (tracked a m b).1 1

  -- The last locked part.
  abbrev pub count_response : ℕ → ℕ → AppBlocker C → AppBlocker C
  count_response a m b = record b {
    tracker = put2 a m ((tracked a m b).0, add_u32 (tracked a m b).1 1) b.tracker;
  }

  unfoldable pub add_response : ℕ → ℕ → Message → AppBlocker C → C → Option (AppBlocker C × C)
  add_response a m msg b c = do
    handle ← find2 a m b.recv_handle
    c' ← handle msg c
    c'' ←
        (if recv_finish a m b
          then (do finish ← find2 a m b.recv_finish_handle; finish c')
          else some c')
    some (count_response a m b, c'')

  -- `WorkerHelperThread::Main` on the messages that its work queue delivers; an exit leaves the
  -- rest in the queue.
  unfoldable pub main :
      ThreadsafeQueue Message
      → AppBlocker C
      → C
      → Option (ThreadsafeQueue Message × AppBlocker C × C)
  main [] b c = some ([], b, c)
  main (msg ∷ queue) b c = elim (is_exit msg.flag) [
    | true ↦ some (queue, b, c)
    | false ↦ do (b', c') ← add_response msg.recver msg.model_id msg b c; main queue b' c'
  ]

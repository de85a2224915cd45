-- ===== src/Message.antt =====
-- base/message.hpp: the messages that the threads and the nodes exchange; and
-- base/threadsafe_queue.hpp: the queue between two threads, whose operations are atomic.
use flexps.Base.{
  ℕ, Bool, true, false, ◌-◌, ◌≤◌, ◌<◌, ◌≡◌, List, [], ◌∷◌, ◌++◌, Option, none, some, length, take,
  drop, IsSorted, lower_bound,
}

-- The buffer of a `third_party::SArray<char>`, as its bytes.
abbrev pub Chars : Type 0
Chars = List ℕ

pub data Flag : Type 0 where
  exit barrier reset_worker_in_model clock add get : Flag

-- `msg.meta.flag == Flag::kExit`, which ends the loop of every thread.
abbrev pub is_exit : Flag → Bool
is_exit Flag.exit = true
is_exit _ = false

pub record Meta : Type 0 where
  pub sender : ℕ
  pub recver : ℕ
  pub model_id : ℕ
  pub flag : Flag
  pub version : ℕ

-- `body` is the field `data` of the source.
pub record Message : Type 0 where
  pub meta : Meta
  pub open meta use *
  pub body : List Chars

-- `Message::AddData`, on a value that is viewed as characters.
abbrev pub add_data : Chars → Message → Message
add_data d m = record m { body = m.body ++ d ∷ [] }

-- `ThreadsafeQueue<T>`: the elements, oldest first.
abbrev pub ThreadsafeQueue {ℓ} : Type ℓ → Type ℓ
ThreadsafeQueue A = List A

module _ {ℓ} {A : Type ℓ} where
  abbrev pub push : A → ThreadsafeQueue A → ThreadsafeQueue A
  push a q = q ++ a ∷ []

  -- `none` is a thread that waits.
  abbrev pub wait_and_pop : ThreadsafeQueue A → Option (A × ThreadsafeQueue A)
  wait_and_pop [] = none
  wait_and_pop (a ∷ q) = some (a, q)

-- What the code takes from base/third_party and from the language: the views of an `SArray<Key>`
-- as characters and back, which share one buffer; `SArray::segment`, at either type of element;
-- `FindRange` on a sorted array, as the two ends of the range; and the value of a
-- default-initialised `Meta`, whose fields are indeterminate.
pub record Platform : Type 0 where
  pub of_keys : List ℕ → Chars
  pub as_keys : Chars → List ℕ
  pub as_keys-of_keys : (keys : List ℕ) → as_keys (of_keys keys) ≡ keys
  pub segment : List ℕ → ℕ → ℕ → List ℕ
  pub segment_lem :
      (xs : List ℕ) (b e : ℕ) → b ≤ e → e ≤ length xs → segment xs b e ≡ take (e - b) (drop b xs)
  pub find_range : List ℕ → ℕ → ℕ → ℕ × ℕ
  pub find_range_lem :
      (keys : List ℕ) (lower upper : ℕ)
      → IsSorted keys
      → lower < upper
      → find_range keys lower upper ≡ (lower_bound keys lower, lower_bound keys upper)
  pub fresh_meta : Meta

-- The same views for `SArray<Val>`, and what a table asks of its type of values: `Val()` and `+`.
pub record Values (Val : Type 0) : Type 0 where
  pub of_vals : List Val → Chars
  pub as_vals : Chars → List Val
  pub as_vals-of_vals : (vals : List Val) → as_vals (of_vals vals) ≡ vals
  pub default : Val
  pub plus : Val → Val → Val

-- ===== src/Server/Recorder.antt =====
-- server/sparsessp/: which Gets may run ahead of the slowest worker. A recorder counts, for each
-- version (clock) and key, the Gets that named the key; a Get that is ahead by more than the
-- staleness waits for the last version that has one of its keys. The two recorders of the source
-- differ in `main_recorder_` alone, which is an interface here, and share the rest, written once.
-- Versions are natural numbers; DCHECKs, which a release build leaves out, are not modelled. `none` is
-- a failed CHECK, or a read outside of an array.
pub mod UnorderedMap
pub mod Vector
pub mod Conflicts
pub mod Replies
use flexps.Base.{
  ℕ, zero, suc, ◌+◌, ◌-◌, ◌≡◌, List, [], ◌∷◌, ◌++◌, Option, none, some, Bool, true, false, Dict,
  find_or, put, ltb, leb, ◌==◌, ◌&&◌, if◌then◌else◌, ◌>>=◌, ◌>>◌, check,
}
use flexps.Message.{Chars, Message, Platform}

-- `main_recorder_`: for each version and key a count, and the messages that wait there.
pub record MainRecorder (R : Type 0) : Type 0 where
  -- `[version][key].first += 1`
  pub count_up : ℕ → ℕ → R → Option R
  -- `[version][key].second.push_back(msg)`
  pub forward : ℕ → ℕ → Message → R → Option R
  -- `[version][key].first -= 1`; at 0, the messages that waited there.
  pub release : ℕ → ℕ → R → Option (List Message × R)
  -- The test of `HasConflict`.
  pub recorded : ℕ → ℕ → R → Option Bool
  pub remove_record : ℕ → R → R
  pub forward_keeps :
      (v k : ℕ) (msg : Message) (r r' : R)
      → recorded v k r ≡ some true
      → forward v k msg r ≡ some r'
      → (v' k' : ℕ) → recorded v' k' r' ≡ recorded v' k' r

pub record SparseRecorder (R : Type 0) : Type 0 where
  pub staleness : ℕ
  pub speculation : ℕ
  pub main_recorder : R
  pub future_keys : Dict (List (ℕ × List ℕ))
  pub future_msgs : Dict (List (ℕ × Message))
  pub too_fast_buffer : List Message

module _ {R : Type 0} ⦃c : MainRecorder R⦄ where
  -- The inner loop of `HasConflict`: the first of the keys that the version has.
  unfoldable pub first_recorded : List ℕ → ℕ → R → Option (Option ℕ)
  first_recorded [] version r = some none
  first_recorded (key ∷ keys) version r = do
    hit ← c.recorded version key r
    elim hit [ true ↦ some (some key) | false ↦ first_recorded keys version r ]

  -- `HasConflict`, over the `n` versions from `begin_version` on, the last first: the version and key
  -- that it forwards to.
  unfoldable pub has_conflict : List ℕ → ℕ → ℕ → R → Option (Option (ℕ × ℕ))
  unfolding first_recorded
  has_conflict keys begin_version zero r = some none
  has_conflict keys begin_version (suc n) r = do
    found ← first_recorded keys (begin_version + n) r
    elim found [
      | some key ↦ some (some (begin_version + n, key))
      | none ↦ has_conflict keys begin_version n r
    ]

-- `SArray<Key>(msg.data[0])`
abbrev pub keys_of : ⦃p : Platform⦄ → List Chars → Option (List ℕ)
keys_of [] = none
keys_of ⦃p⦄ (chars ∷ rest) = some (p.as_keys chars)

module _ {R : Type 0} ⦃p : Platform⦄ ⦃c : MainRecorder R⦄ where
  -- Whether a Get is replied, or waits for the version and key of a conflict: the versions from
  -- `min_clock` up to `msg.meta.version - staleness_ - 1`.
  unfoldable pub reply_or_forward : ℕ → ℕ → Message → R → Option (List Message × R)
  unfolding has_conflict
  reply_or_forward staleness min_clock msg r = do
    keys ← keys_of msg.body
    conflict ← has_conflict keys min_clock (msg.version - staleness - min_clock) r
    elim conflict [
      | none ↦ some (msg ∷ [], r)
      | some (version, key) ↦ do r' ← c.forward version key msg r; some ([], r')
    ]

  unfoldable pub reply_or_forward_all : ℕ → ℕ → List Message → R → Option (List Message × R)
  unfolding reply_or_forward
  reply_or_forward_all staleness min_clock [] r = some ([], r)
  reply_or_forward_all staleness min_clock (msg ∷ msgs) r = do
    (replied, r') ← reply_or_forward staleness min_clock msg r
    (more, r'') ← reply_or_forward_all staleness min_clock msgs r'
    some (replied ++ more, r'')

  -- The first loop of `RemoveRecordAndGetNonConflictMsgs`.
  unfoldable pub release_keys : ℕ → List ℕ → R → Option (List Message × R)
  release_keys version [] r = some ([], r)
  release_keys version (key ∷ keys) r = do
    (msgs, r') ← c.release version key r
    (more, r'') ← release_keys version keys r'
    some (msgs ++ more, r'')

  unfoldable pub remove_record_and_get_non_conflict_msgs :
      ℕ → ℕ → List ℕ → SparseRecorder R → Option (List Message × SparseRecorder R)
  unfolding release_keys reply_or_forward_all
  remove_record_and_get_non_conflict_msgs version min_clock keys s = do
    (msgs_to_be_handled, r) ← release_keys version keys s.main_recorder
    (msgs, r') ← reply_or_forward_all s.staleness min_clock msgs_to_be_handled r
    some (msgs, record s { main_recorder = r' })

  -- The first part of `GetNonConflictMsgs`: the Gets that waited for the sender's last clock.
  unfoldable pub get_blocked :
      ℕ → ℕ → ℕ → SparseRecorder R → Option (List Message × SparseRecorder R)
  unfolding remove_record_and_get_non_conflict_msgs
  get_blocked progress sender min_clock s = elim (find_or sender [] s.future_keys) [
    | [] ↦ some ([], s)
    | (version, keys) ∷ rest ↦ elim (version + 1 == progress) [
      | false ↦ some ([], s)
      | true ↦ do
        (msgs, s') ← remove_record_and_get_non_conflict_msgs version min_clock keys s
        some (msgs, record s' { future_keys = put sender rest s'.future_keys })
    ]
  ]

  -- The branches of the second part, on the Get `msg`.
  unfoldable pub place_own :
      ℕ → Message → SparseRecorder R → Option (List Message × SparseRecorder R)
  unfolding reply_or_forward
  place_own min_clock msg s = do
    check
        (leb min_clock msg.version && ltb msg.version (min_clock + s.staleness + s.speculation + 2))
    elim (leb msg.version (s.staleness + min_clock)) [
      | true ↦ some (msg ∷ [], s)
      | false ↦ elim (leb msg.version (min_clock + s.staleness + s.speculation)) [
        | true ↦ do
          (msgs, r) ← reply_or_forward s.staleness min_clock msg s.main_recorder
          some (msgs, record s { main_recorder = r })
        | false ↦ do
          check (msg.version == min_clock + s.staleness + s.speculation + 1)
          some ([], record s { too_fast_buffer = s.too_fast_buffer ++ msg ∷ [] })
      ]
    ]

  -- The second part: the sender's own Get.
  unfoldable pub get_own : ℕ → ℕ → ℕ → SparseRecorder R → Option (List Message × SparseRecorder R)
  unfolding place_own
  get_own progress sender min_clock s = elim (find_or sender [] s.future_msgs) [
    | [] ↦ some ([], s)
    | (version, msg) ∷ rest ↦ elim (version == progress) [
      | false ↦ some ([], s)
      | true ↦ do
        (msgs, s') ← place_own min_clock msg s
        some (msgs, record s' { future_msgs = put sender rest s'.future_msgs })
    ]
  ]

  unfoldable pub get_non_conflict_msgs :
      ℕ → ℕ → ℕ → SparseRecorder R → Option (List Message × SparseRecorder R)
  unfolding get_blocked get_own
  get_non_conflict_msgs progress sender min_clock s = do
    (msgs, s') ← get_blocked progress sender min_clock s
    (more, s'') ← get_own progress sender min_clock s'
    some (msgs ++ more, s'')

  unfoldable pub handle_too_fast_buffer :
      ℕ → SparseRecorder R → Option (List Message × SparseRecorder R)
  unfolding reply_or_forward_all
  handle_too_fast_buffer min_clock s = do
    (msgs, r) ← reply_or_forward_all s.staleness min_clock s.too_fast_buffer s.main_recorder
    some (msgs, record s { main_recorder = r; too_fast_buffer = [] })

  unfoldable pub count_keys : ℕ → List ℕ → R → Option R
  count_keys version [] r = some r
  count_keys version (key ∷ keys) r = do r' ← c.count_up version key r; count_keys version keys r'

  unfoldable pub add_record : Message → SparseRecorder R → Option (SparseRecorder R)
  unfolding count_keys
  add_record msg s = do
    keys ← keys_of msg.body
    r ← count_keys msg.version keys s.main_recorder
    let later = find_or msg.sender [] s.future_msgs
    some (record s {
      main_recorder = r;
      future_keys =
          put msg.sender (find_or msg.sender [] s.future_keys ++ (msg.version, keys) ∷ [])
            s.future_keys;
      future_msgs =
          if msg.version == 0
          then s.future_msgs
          else put msg.sender (later ++ (msg.version, msg) ∷ []) s.future_msgs;
    })

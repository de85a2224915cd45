-- ===== src/Server/Recorder/Vector.antt =====
-- server/sparsessp/vector_sparse_ssp_recorder.hpp and .cpp: `main_recorder_` as an array of arrays, at
-- the version modulo the number of versions and at the key less the start of the range. `none` is an
-- index out of range, also one that an `int` makes negative.
use flexps.Base.{
  ℕ, ◌≡◌, ◌+◌, ◌*◌, ◌-◌, ◌%◌, List, [], ◌∷◌, ◌++◌, Option, some, Bool, true, get_elem?,
  get_elem?-set, set, replicate, ltb, leb, ◌==◌, if◌then◌else◌, ◌>>=◌, ◌>>◌, check, add_u32,
  sub_u32, arith, >>=-eq-some, int_mod,
}
use flexps.Message.{Message, Platform}
use flexps.Server.Recorder
use flexps.Server.Recorder.{MainRecorder, SparseRecorder}

abbrev pub Entry : Type 0
Entry = ℕ × List Message

pub record VectorRecords : Type 0 where
  pub main_recorder_version_level_size : ℕ
  pub begin : ℕ
  pub main_recorder : List (List Entry)

-- The constructor: the versions that may be live at once, and some.
unfoldable pub make : ℕ → ℕ → ℕ → ℕ → SparseRecorder VectorRecords
make staleness speculation begin last =
    let size = staleness + 2 * speculation + 3 in
    record {
      staleness = staleness;
      speculation = speculation;
      main_recorder = record {
        main_recorder_version_level_size = size;
        begin = begin;
        main_recorder = replicate size (replicate (last - begin) (0, []));
      };
      future_keys = [];
      future_msgs = [];
      too_fast_buffer = [];
    }

-- The row of a version, and the entry of a key in it.
abbrev slot : ℕ → VectorRecords → ℕ
slot v r = v % r.main_recorder_version_level_size

abbrev pub entry : ℕ → ℕ → VectorRecords → Option Entry
entry v k r = do
  check (leb r.begin k)
  row ← get_elem? r.main_recorder (slot v r)
  get_elem? row (k - r.begin)

abbrev pub put_entry : ℕ → ℕ → Entry → VectorRecords → Option VectorRecords
put_entry v k e r = do
  row ← get_elem? r.main_recorder (slot v r)
  some (record r { main_recorder = set r.main_recorder (slot v r) (set row (k - r.begin) e) })

abbrev pub count_up : ℕ → ℕ → VectorRecords → Option VectorRecords
count_up v k r = do e ← entry v k r; put_entry v k (add_u32 e.0 1, e.1) r

-- `HasConflict` hands the key over in an `int`: from 2^31 on it is negative, and the index out of range.
abbrev pub forward : ℕ → ℕ → Message → VectorRecords → Option VectorRecords
forward v k msg r = do
  check (ltb k int_mod)
  e ← entry v k r
  put_entry v k (e.0, e.1 ++ msg ∷ []) r

-- The index, `key_after_minus`, is an `int` here.
abbrev pub release : ℕ → ℕ → VectorRecords → Option (List Message × VectorRecords)
release v k r = do
  check (ltb (k - r.begin) int_mod)
  e ← entry v k r
  let left = sub_u32 e.0 1
  let released = if left == 0 then e.1 else []
  r' ← put_entry v k (left, if left == 0 then [] else e.1) r
  some (released, r')

abbrev pub recorded : ℕ → ℕ → VectorRecords → Option Bool
recorded v k r = do e ← entry v k r; some (ltb 0 e.0)

-- `RemoveRecord` does nothing: the counts have come down to 0.
abbrev pub remove_record : ℕ → VectorRecords → VectorRecords
remove_record v r = r

pub forward_keeps :
    (v k : ℕ) (msg : Message) (r r' : VectorRecords)
    → recorded v k r ≡ some true
    → forward v k msg r ≡ some r'
    → (v' k' : ℕ) → recorded v' k' r' ≡ recorded v' k' r
forward_keeps v k msg r r' h e v' k' =
    let (w, fits, e0) = >>=-eq-some (check (ltb k int_mod)) _ e in
    let (en, found, e1) = >>=-eq-some (entry v k r) _ e0 in
    let (u, within, f1) = >>=-eq-some (check (leb r.begin k)) _ found in
    let (row, got, f2) = >>=-eq-some (get_elem? r.main_recorder (slot v r)) _ f1 in
    let e' : Entry = (en.0, en.1 ++ msg ∷ []) in
    let row' = set row (k - r.begin) e' in
    let at_key : get_elem? row (k - r.begin) ≡ some en = f2 in
    ground (
      arith,
      get_elem?-set r.main_recorder (slot v r) (slot v' r) row row' got,
      get_elem?-set row (k - r.begin) (k' - r.begin) en e' at_key,
    )

instance abbrev pub vector_records : MainRecorder VectorRecords
vector_records = record {
  count_up = count_up;
  forward = forward;
  release = release;
  recorded = recorded;
  remove_record = remove_record;
  forward_keeps = forward_keeps;
}

-- The methods of the class are the shared ones on this array.
module _ ⦃p : Platform⦄ where
  abbrev pub get_non_conflict_msgs :
      ℕ
      → ℕ
      → ℕ
      → SparseRecorder VectorRecords
      → Option (List Message × SparseRecorder VectorRecords)
  get_non_conflict_msgs = Recorder.get_non_conflict_msgs

  abbrev pub handle_too_fast_buffer :
      ℕ → SparseRecorder VectorRecords → Option (List Message × SparseRecorder VectorRecords)
  handle_too_fast_buffer = Recorder.handle_too_fast_buffer

  abbrev pub add_record :
      Message → SparseRecorder VectorRecords → Option (SparseRecorder VectorRecords)
  add_record = Recorder.add_record

  abbrev pub remove_record_and_get_non_conflict_msgs :
      ℕ
      → ℕ
      → List ℕ
      → SparseRecorder VectorRecords
      → Option (List Message × SparseRecorder VectorRecords)
  remove_record_and_get_non_conflict_msgs = Recorder.remove_record_and_get_non_conflict_msgs

abbrev pub has_conflict : List ℕ → ℕ → ℕ → VectorRecords → Option (Option (ℕ × ℕ))
has_conflict = Recorder.has_conflict

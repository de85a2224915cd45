-- ===== src/Server/Recorder/UnorderedMap.antt =====
-- server/sparsessp/unordered_map_sparse_ssp_recorder.hpp and .cpp: `main_recorder_` as a map from
-- versions to maps from keys. An empty inner map, which `[]` may leave behind, reads as none.
use flexps.Base.{
  ℕ, ◌≡◌, List, [], ◌∷◌, ◌++◌, Option, some, Bool, true, Dict, find_or, put, erase, contains, ◌==◌,
  if◌then◌else◌, add_u32, sub_u32, arith, find-put,
}
use flexps.Message.{Message}
use flexps.Server.Recorder.{MainRecorder}

-- The count of a key, and the messages that wait there.
abbrev pub Entry : Type 0
Entry = ℕ × List Message

abbrev pub MapRecords : Type 0
MapRecords = Dict (Dict Entry)

-- `main_recorder_[version][key]`
abbrev pub entry : ℕ → ℕ → MapRecords → Entry
entry v k r = find_or k (0, []) (find_or v [] r)

abbrev pub put_entry : ℕ → ℕ → Entry → MapRecords → MapRecords
put_entry v k e r = put v (put k e (find_or v [] r)) r

abbrev pub count_up : ℕ → ℕ → MapRecords → Option MapRecords
count_up v k r = some (put_entry v k (add_u32 (entry v k r).0 1, (entry v k r).1) r)

abbrev pub forward : ℕ → ℕ → Message → MapRecords → Option MapRecords
forward v k msg r = some (put_entry v k ((entry v k r).0, (entry v k r).1 ++ msg ∷ []) r)

abbrev pub release : ℕ → ℕ → MapRecords → Option (List Message × MapRecords)
release v k r =
    let left = sub_u32 (entry v k r).0 1 in
    if left == 0
    then some ((entry v k r).1, put v (erase k (find_or v [] r)) r)
    else some ([], put_entry v k (left, (entry v k r).1) r)

abbrev pub recorded : ℕ → ℕ → MapRecords → Option Bool
recorded v k r = some (contains k (find_or v [] r))

abbrev pub remove_record : ℕ → MapRecords → MapRecords
remove_record v r = erase v r

pub forward_keeps :
    (v k : ℕ) (msg : Message) (r r' : MapRecords)
    → recorded v k r ≡ some true
    → forward v k msg r ≡ some r'
    → (v' k' : ℕ) → recorded v' k' r' ≡ recorded v' k' r
forward_keeps v k msg r r' h e v' k' = ground (
  arith,
  find-put v' v (put k ((entry v k r).0, (entry v k r).1 ++ msg ∷ []) (find_or v [] r)) r,
  find-put k' k ((entry v k r).0, (entry v k r).1 ++ msg ∷ []) (find_or v [] r),
)

instance abbrev pub map_records : MainRecorder MapRecords
map_records = record {
  count_up = count_up;
  forward = forward;
  release = release;
  recorded = recorded;
  remove_record = remove_record;
  forward_keeps = forward_keeps;
}

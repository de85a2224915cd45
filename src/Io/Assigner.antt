-- ===== src/Io/Assigner.antt =====
-- io/hdfs_assigner.hpp and .cpp: the master hands out the blocks of the files of a url, each to one
-- worker. Host names, urls and file names are numbers, in the order of the strings. The directory and
-- the hosts of a block, which HDFS tells, and the first element of an unordered set are parameters.
-- `none` is a loop that does not end or a read of what is not there.
pub mod Erase
pub mod Blocks
pub mod Found
pub mod Browse
pub mod Requests
pub mod State
pub mod Session
use flexps.Base.{
  ℕ, zero, suc, ◌+◌, List, [], ◌∷◌, Option, none, some, Bool, true, false, ltb, ◌==◌, ◌&&◌, not,
  if◌then◌else◌, ◌>>=◌, ◌>>◌, check, length, Dict, find, find_or, contains, put, erase,
}

pub record BlkDesc : Type 0 where
  pub filename : ℕ
  pub offset : ℕ
  pub block_location : ℕ

-- `operator==`, which compares `block_location` with itself.
abbrev pub same_block : ℕ → ℕ → BlkDesc → Bool
same_block filename offset b = (filename == b.filename) && (offset == b.offset)

-- The blocks that each host holds.
abbrev pub Locality : Type 0
Locality = Dict (List BlkDesc)

abbrev pub has_block : ℕ → ℕ → List BlkDesc → Bool
has_block f o [] = false
has_block f o (b ∷ blocks) = if same_block f o b then true else has_block f o blocks

-- `insert` of an unordered set.
unfoldable pub insert_block : BlkDesc → List BlkDesc → List BlkDesc
insert_block b blocks = if has_block b.filename b.offset blocks then blocks else b ∷ blocks

-- The inner loop of the removal, which stops after the first block that it erases.
unfoldable pub erase_block : ℕ → ℕ → List BlkDesc → List BlkDesc
erase_block f o [] = []
erase_block f o (b ∷ blocks) =
    let rest = erase_block f o blocks in if same_block f o b then blocks else b ∷ rest

-- All replicas of a block are removed, on every host.
unfoldable pub erase_replicas : ℕ → ℕ → Locality → Locality
unfolding erase_block
erase_replicas f o [] = []
erase_replicas f o ((host, blocks) ∷ locality) =
    (host, erase_block f o blocks) ∷ erase_replicas f o locality

-- The loop over all hosts: the first one with a block.
unfoldable pub unfinished_host : Locality → Option ℕ
unfinished_host [] = none
unfinished_host ((host, []) ∷ locality) = unfinished_host locality
unfinished_host ((host, b ∷ blocks) ∷ locality) = some host

-- The host whose block is handed out: the asking one, if it has blocks.
unfoldable pub selected_host : ℕ → Locality → Option ℕ
unfolding unfinished_host
selected_host host locality = elim (find_or host [] locality) [
  | [] ↦ unfinished_host locality
  | b ∷ blocks ↦ some host
]

-- `all_files_locality[host]`, which makes an entry for a host that is not there.
abbrev pub touch : ℕ → Locality → Locality
touch host locality = put host (find_or host [] locality) locality

module _ (begin : List BlkDesc → Option BlkDesc) where
  -- The second part of `answer`: a block, or none where all are handed out.
  unfoldable pub select_block : ℕ → Locality → Option (Option (ℕ × ℕ) × Locality)
  unfolding selected_host erase_replicas
  select_block host locality = elim (selected_host host (touch host locality)) [
    | none ↦ some (none, touch host locality)
    | some selected ↦ do
      b ← begin (find_or selected [] (touch host locality))
      some (some (b.filename, b.offset), erase_replicas b.filename b.offset (touch host locality))
  ]

-- What HDFS tells: the files of a directory with their sizes and block sizes, and the hosts of a block.
pub record FileInfo : Type 0 where
  pub is_file : Bool
  pub name : ℕ
  pub file_size : ℕ
  pub block_size : ℕ

pub record Hdfs : Type 0 where
  pub list_directory : ℕ → List FileInfo
  pub block_hosts : ℕ → ℕ → List ℕ

-- The loop over the replicas of a block.
unfoldable pub add_replicas : ℕ → ℕ → List ℕ → Locality → Locality
unfolding insert_block
add_replicas name k [] locality = locality
add_replicas name k (host ∷ hosts) locality =
    let b : BlkDesc = record { filename = name; offset = k; block_location = host } in
    add_replicas name k hosts (put host (insert_block b (find_or host [] locality)) locality)

module _ (hdfs : Hdfs) where
  -- The loop over the blocks of a file from the offset `k`; a file of blocks of size 0 never ends.
  unfoldable pub add_blocks : ℕ → FileInfo → ℕ → Locality → Option Locality
  unfolding add_replicas
  add_blocks zero file k locality = if ltb k file.file_size then none else some locality
  add_blocks (suc fuel) file k locality =
      let next = add_replicas file.name k (hdfs.block_hosts file.name k) locality in
      let rest = add_blocks fuel file (k + file.block_size) next in
      if ltb k file.file_size then rest else some locality

  -- The loop over the files.
  unfoldable pub add_files : List FileInfo → Locality → Option Locality
  unfolding add_blocks
  add_files [] locality = some locality
  add_files (file ∷ files) locality = elim file.is_file [
    | false ↦ add_files files locality
    | true ↦ do locality' ← add_blocks file.file_size file 0 locality; add_files files locality'
  ]

-- `finish_multi_dict_` also holds a count for each host, which is only ever set to 0.
pub record HdfsBlockAssigner : Type 0 where
  pub running : Bool
  pub connected : Bool
  pub finished_workers : Dict (Unit {0})
  pub num_workers_alive : ℕ
  pub files_locality : Dict (Dict Locality)
  pub finish_count : Dict (Dict ℕ)

-- `d[id][url]`, and its change.
abbrev pub at_url {ℓ} : {V : Type ℓ} → ℕ → ℕ → V → Dict (Dict V) → V
at_url id url v d = find_or url v (find_or id [] d)

abbrev pub set_url {ℓ} : {V : Type ℓ} → ℕ → ℕ → V → Dict (Dict V) → Dict (Dict V)
set_url id url v d = put id (put url v (find_or id [] d)) d

module _ (hdfs : Hdfs) (begin : List BlkDesc → Option BlkDesc) where
  unfoldable pub browse_hdfs : ℕ → ℕ → HdfsBlockAssigner → Option HdfsBlockAssigner
  unfolding add_files
  browse_hdfs id url a = if not a.connected then some a else (do
    locality ← add_files hdfs (hdfs.list_directory url) (at_url id url [] a.files_locality)
    some (record a { files_locality = set_url id url locality a.files_locality }))

  -- `browse_hdfs`, and the reset of the count that follows each call.
  unfoldable pub browse_and_reset : ℕ → ℕ → HdfsBlockAssigner → Option HdfsBlockAssigner
  unfolding browse_hdfs
  browse_and_reset id url a = do
    a' ← browse_hdfs id url a
    some (record a' { finish_count = set_url id url 0 a'.finish_count })

  -- A url that a task asks for the first time is browsed.
  unfoldable pub browse_new : ℕ → ℕ → HdfsBlockAssigner → Option HdfsBlockAssigner
  unfolding browse_and_reset
  browse_new id url a = do
    a' ← (if contains id a.files_locality then some a else browse_and_reset id url a)
    if contains url (find_or id [] a'.files_locality) then some a' else browse_and_reset id url a'

  -- `answer`: the file and the offset, and `none` for the empty answer.
  unfoldable pub answer :
      ℕ → ℕ → ℕ → HdfsBlockAssigner → Option (Option (ℕ × ℕ) × HdfsBlockAssigner)
  unfolding browse_new select_block
  answer host url id a = if not a.connected then some (none, a) else (do
    a1 ← browse_new id url a
    (ret, locality) ← select_block begin host (at_url id url [] a1.files_locality)
    let a2 = record a1 { files_locality = set_url id url locality a1.files_locality }
    let count = at_url id url 0 a2.finish_count + 1
    let a3 = record a2 { finish_count = set_url id url count a2.finish_count }
    elim ret [
      | some block ↦ some (some block, a2)
      | none ↦ some (
        none,
        if count == a3.num_workers_alive
            then record a3 {
              files_locality =
                  put id (erase url (find_or id [] a3.files_locality)) a3.files_locality;
            }
            else a3,
      )
    ])

  unfoldable pub handle_block_request :
      ℕ → ℕ → ℕ → ℕ → HdfsBlockAssigner → Option (Option (ℕ × ℕ) × HdfsBlockAssigner)
  unfolding answer
  handle_block_request url host num_threads id a =
      answer host url id (record a { num_workers_alive = num_threads })

abbrev pub halt : HdfsBlockAssigner → HdfsBlockAssigner
halt a = record a { running = false }

unfoldable pub handle_exit : ℕ → HdfsBlockAssigner → HdfsBlockAssigner
handle_exit worker_id a =
    let a' = record a { finished_workers = put worker_id tt a.finished_workers } in
    if length a'.finished_workers == a'.num_workers_alive then halt a' else a'

-- ===== src/Tests/Assigner.antt =====
-- A directory with one file of two blocks, the first of which two hosts hold.
use flexps.Base.{◌≡◌, refl, List, [], ◌∷◌, ◌⊎◌, Option, none, some, true, arith, Any}
use flexps.Io.Assigner.{BlkDesc, Locality, FileInfo, Hdfs, HdfsBlockAssigner, add_files}
use flexps.Io.Assigner.Blocks.{Begins, Finished, HandedOut, select_block_cases}
use flexps.Io.Assigner.Erase.{Stored}
use flexps.Io.Assigner.State.{Browsed}
use flexps.Io.Assigner.Session.{Session, handle_requests-Session}
use flexps.Io.Assigner.Found.{IsReplica, Adds}
use flexps.Io.Assigner.Browse.{add_files_total}

abbrev files : List FileInfo
files = record { is_file = true; name = 1; file_size = 100; block_size = 64 } ∷ []

abbrev hdfs : Hdfs
hdfs = record { list_directory = λ url. files; block_hosts = λ name k. 4 ∷ 5 ∷ [] }

abbrev begin : List BlkDesc → Option BlkDesc
begin [] = none
begin (b ∷ blocks) = some b

nothing-Stored : Stored []
nothing-Stored = record { ascending = tt; no_repeat = λ h. tt }

add_files_total_example :
    (locality : Locality) × (add_files hdfs files [] ≡ some locality)
    × Stored locality
    × Adds (λ h f o. Any (IsReplica hdfs h f o) files) [] locality
add_files_total_example = add_files_total hdfs files [] (omega arith, tt) nothing-Stored

begin-Begins : Begins begin
begin-Begins b rest = (b, refl, ground arith)

abbrev browsed :
    (locality : Locality) × (add_files hdfs files [] ≡ some locality)
    × Stored locality
    × Adds (λ h f o. Any (IsReplica hdfs h f o) files) [] locality
browsed = add_files_total hdfs files [] (omega arith, tt) nothing-Stored

select_block_cases_example : Finished begin 7 browsed.0 ⊎ HandedOut begin 7 browsed.0
select_block_cases_example = select_block_cases begin 7 browsed.0 begin-Begins browsed.2

abbrev assigner : HdfsBlockAssigner
assigner = record {
  running = true;
  connected = true;
  finished_workers = [];
  num_workers_alive = 0;
  files_locality = (3, (9, browsed.0) ∷ []) ∷ [];
  finish_count = (3, (9, 0) ∷ []) ∷ [];
}

assigner-Browsed : Browsed 3 9 assigner
assigner-Browsed = record { connected = refl; has_id = refl; has_url = refl; stored = browsed.2 }

handle_requests-Session_example : Session hdfs begin 3 9 2 (4 ∷ 7 ∷ 5 ∷ 4 ∷ 5 ∷ []) assigner
handle_requests-Session_example =
    handle_requests-Session hdfs begin 3 9 2 (4 ∷ 7 ∷ 5 ∷ 4 ∷ 5 ∷ []) assigner begin-Begins
      assigner-Browsed (omega arith)

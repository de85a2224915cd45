-- ===== src/Io/Assigner/Browse.antt =====
-- Browsing a directory: the loops over its files and their blocks.
use flexps.Base.{
  ℕ, zero, suc, ◌+◌, ◌<◌, ◌≤◌, ◌≡◌, refl, subst, ◌∙◌, List, [], ◌∷◌, some, true, false, ◌==◌, ltb,
  arith, Bool-cases, inl, inr, find, find_or, put, find-put, put-Ascending, All, Any, ltb→ge, ◌⊎◌,
}
use flexps.Io.Assigner.{
  BlkDesc, Locality, has_block, insert_block, add_replicas, add_blocks, add_files, FileInfo, Hdfs,
}
use flexps.Io.Assigner.Erase.{NoRepeat, Stored}
use flexps.Io.Assigner.Found.{
  IsReplica, Adds, Adds-both, Adds-nothing, add_replicas-Adds, From, From-join, From-part,
}

NoRepeat-insert_block :
    (b : BlkDesc) (blocks : List BlkDesc) → NoRepeat blocks → NoRepeat (insert_block b blocks)
unfolding insert_block
NoRepeat-insert_block b blocks h = elim (Bool-cases (has_block b.filename b.offset blocks)) [
  | inl there ↦ rw there h
  | inr new ↦ rw new (new, h)
]

put-Stored :
    (host : ℕ) (blocks : List BlkDesc) (locality : Locality)
    → NoRepeat blocks
    → Stored locality
    → Stored (put host blocks locality)
put-Stored host blocks locality h v = record {
  ascending = put-Ascending host blocks locality v.ascending;
  no_repeat = λ i. elim (Bool-cases (i == host)) [
    | inl here ↦
        let found : find i (put host blocks locality) ≡ some blocks =
          find-put i host blocks locality ∙ rw here refl in
        rw (find_or, found) h
    | inr there ↦
        let found : find i (put host blocks locality) ≡ find i locality =
          find-put i host blocks locality ∙ rw there refl in
        subst NoRepeat (rw (find_or, found) refl) (v.no_repeat i)
  ];
}

add_replicas-Stored :
    (name k : ℕ) (hosts : List ℕ) (locality : Locality)
    → Stored locality
    → Stored (add_replicas name k hosts locality)
unfolding add_replicas
add_replicas-Stored name k [] locality v = v
add_replicas-Stored name k (host ∷ hosts) locality v =
    let b : BlkDesc = record { filename = name; offset = k; block_location = host } in
    let blocks = insert_block b (find_or host [] locality) in
    add_replicas-Stored name k hosts (put host blocks locality) (
      put-Stored host blocks locality
        (NoRepeat-insert_block b (find_or host [] locality) (v.no_repeat host)) v)

module _ (hdfs : Hdfs) where
  -- The loop over the blocks of a file ends, if its blocks are not of size 0.
  add_blocks_total :
      (fuel : ℕ) (file : FileInfo) (k : ℕ) (locality : Locality)
      → 0 < file.block_size
      → file.file_size ≤ k + fuel
      → Stored locality
      → (locality' : Locality) × (add_blocks hdfs fuel file k locality ≡ some locality')
        × Stored locality'
        × Adds (From hdfs file k) locality locality'
  unfolding add_blocks
  add_blocks_total zero file k locality moves enough w =
      let ended : ltb k file.file_size ≡ false = ground (arith, enough) in
      (
        locality,
        rw ended refl,
        w,
        Adds-nothing locality
            (λ h f o (_, number, start, inside, _). omega (arith, start, inside, enough)),
      )
  add_blocks_total (suc fuel) file k locality moves enough w =
      elim (Bool-cases (ltb k file.file_size)) [
        | inl more ↦
            let hosts = hdfs.block_hosts file.name k in
            let (locality', ran, w', v) =
              add_blocks_total fuel file (k + file.block_size)
                (add_replicas file.name k hosts locality) moves (omega (arith, enough, moves))
                (add_replicas-Stored file.name k hosts locality w) in
            (
              locality',
              rw more ran,
              w',
              Adds-both (λ h f o. From-join hdfs file k h f o (ground (arith, more)))
                  (λ h f o. From-part hdfs file k h f o)
                  (add_replicas-Adds file.name k hosts locality) v,
            )
        | inr ended ↦ (
          locality,
          rw ended refl,
          w,
          Adds-nothing locality (λ h f o (_, number, start, inside, _).
              omega (arith, start, inside, ltb→ge k file.file_size ended)),
        )
      ]

  file_step :
      (file : FileInfo) (files : List FileInfo) (locality next last : Locality)
      → file.is_file ≡ true
      → add_blocks hdfs file.file_size file 0 locality ≡ some next
      → add_files hdfs files next ≡ some last
      → add_files hdfs (file ∷ files) locality ≡ some last
  unfolding add_files
  file_step file files locality next last is_file ran rest = simp (is_file, ran, rest) refl

  -- The block is one of the first file's, or one of the other files'.
  files_join :
      (file : FileInfo) (files : List FileInfo) (h f o : ℕ)
      → file.is_file ≡ true
      → From hdfs file 0 h f o ⊎ Any (IsReplica hdfs h f o) files
      → Any (IsReplica hdfs h f o) (file ∷ files)
  files_join file files h f o is_file (inl (name, number, offset, inside, hosted)) = inl (record {
    is_file = is_file;
    name = name;
    number = number;
    offset = omega (arith, offset);
    inside = inside;
    hosted = hosted;
  })
  files_join file files h f o is_file (inr other) = inr other

  files_part :
      (file : FileInfo) (files : List FileInfo) (h f o : ℕ)
      → Any (IsReplica hdfs h f o) (file ∷ files)
      → From hdfs file 0 h f o ⊎ Any (IsReplica hdfs h f o) files
  files_part file files h f o (inl r) =
      inl (r.name, r.number, omega (arith, r.offset), r.inside, r.hosted)
  files_part file files h f o (inr other) = inr other

  -- What is no file adds nothing.
  skip-Adds :
      (file : FileInfo) (files : List FileInfo) (locality locality' : Locality)
      → file.is_file ≡ false
      → Adds (λ h f o. Any (IsReplica hdfs h f o) files) locality locality'
      → Adds (λ h f o. Any (IsReplica hdfs h f o) (file ∷ files)) locality locality'
  skip-Adds file files locality locality' other v = record {
    kept = v.kept;
    added = λ h f o r. elim r [
      | inl bad ↦ absurd (ground (arith, bad.is_file, other))
      | inr rest ↦ v.added h f o rest
    ];
    only =
        λ h f o e. elim (v.only h f o e) [ inl before ↦ inl before | inr found ↦ inr (inr found) ];
  }

  -- The loops over the files of a directory end, if no block size is 0. They keep the hosts in their
  -- order and no block twice at a host. A host then holds what it held before, and each block of a
  -- file, from the offset 0 on in steps of the file's block size, of which HDFS tells that the host has
  -- it, and nothing else.
  pub add_files_total :
      (files : List FileInfo) (locality : Locality)
      → All (λ (file : FileInfo). 0 < file.block_size) files
      → Stored locality
      → (locality' : Locality) × (add_files hdfs files locality ≡ some locality')
        × Stored locality'
        × Adds (λ h f o. Any (IsReplica hdfs h f o) files) locality locality'
  unfolding add_files
  add_files_total [] locality h v = (locality, refl, v, Adds-nothing locality (λ h f o p. p))
  add_files_total (file ∷ files) locality h v = elim (Bool-cases file.is_file) [
    | inl is_file ↦
        let (next, ran, v1, w1) =
          add_blocks_total file.file_size file 0 locality h.0 (omega arith) v in
        let (locality', rest, v2, w2) = add_files_total files next h.1 v1 in
        (
          locality',
          file_step file files locality next locality' is_file ran rest,
          v2,
          Adds-both (λ h f o. files_join file files h f o is_file)
              (λ h f o. files_part file files h f o) w1 w2,
        )
    | inr other ↦
        let (locality', rest, v2, w2) = add_files_total files locality h.1 v in
        (locality', rw (other, rest) refl, v2, skip-Adds file files locality locality' other w2)
  ]

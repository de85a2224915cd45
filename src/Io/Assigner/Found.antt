-- ===== src/Io/Assigner/Found.antt =====
-- The blocks that browsing a directory adds to what the hosts hold.
use flexps.Base.{
  ℕ, zero, suc, ◌+◌, ◌*◌, ◌<◌, ◌≡◌, refl, sym, ap, subst, ◌∙◌, List, [], ◌∷◌, some, Bool, true,
  false, ◌==◌, ◌&&◌, ◌||◌, if◌then◌else◌, arith, Bool-cases, inl, inr, ◌⊎◌, find, find_or, put,
  find-put,
}
use flexps.Io.Assigner.{BlkDesc, Locality, has_block, insert_block, add_replicas, FileInfo, Hdfs}
use flexps.Io.Assigner.Erase.{holds}

-- Whether a host is among the hosts of a block.
abbrev pub among : ℕ → List ℕ → Bool
among h [] = false
among h (host ∷ hosts) = (h == host) || among h hosts

-- The host is one of those that HDFS tells for a block of one of the files: a block starts at each
-- multiple of the block size below the size of the file.
pub record IsReplica (hdfs : Hdfs) (h f o : ℕ) (file : FileInfo) : Type 0 where
  pub is_file : file.is_file ≡ true
  pub name : f ≡ file.name
  pub number : ℕ
  pub offset : o ≡ number * file.block_size
  pub inside : o < file.file_size
  pub hosted : among h (hdfs.block_hosts f o) ≡ true

has_block-insert_block :
    (f o : ℕ) (b : BlkDesc) (blocks : List BlkDesc)
    → has_block f o (insert_block b blocks)
      ≡ (if (f == b.filename) && (o == b.offset) then true else has_block f o blocks)
unfolding insert_block
has_block-insert_block f o b blocks = elim (Bool-cases (has_block b.filename b.offset blocks)) [
  | inl there ↦ elim (Bool-cases ((f == b.filename) && (o == b.offset))) [
    | inl same ↦
        let same_f : b.filename ≡ f = ground arith in
        let same_o : b.offset ≡ o = ground arith in
        rw (there, same)
          (ap (λ i. has_block i o blocks) (sym same_f)
            ∙ ap (λ i. has_block b.filename i blocks) (sym same_o)
            ∙ there)
    | inr other ↦ rw (there, other) refl
  ]
  | inr new ↦ rw new refl
]

if-or : (b e : Bool) → (if b then true else e) ≡ (b || e)
if-or true e = refl
if-or false e = refl

none_left : (a b e : Bool) → e ≡ ((a && (b && false)) || e)
none_left true true e = refl
none_left true false e = refl
none_left false b e = refl

holds-put :
    (h f o host : ℕ) (blocks : List BlkDesc) (locality : Locality)
    → holds h f o (put host blocks locality)
      ≡ (if h == host then has_block f o blocks else holds h f o locality)
holds-put h f o host blocks locality = elim (Bool-cases (h == host)) [
  | inl here ↦
      let found : find h (put host blocks locality) ≡ some blocks =
        find-put h host blocks locality ∙ rw here refl in
      rw (find_or, found, here) refl
  | inr there ↦
      let found : find h (put host blocks locality) ≡ find h locality =
        find-put h host blocks locality ∙ rw there refl in
      rw (find_or, found, there) refl
]

-- One more host of a block.
regroup :
    (a b c d e : Bool) → ((a && (b && d)) || ((c && (a && b)) || e)) ≡ ((a && (b && (c || d))) || e)
regroup true true c d e = ground arith
regroup true false true d e = refl
regroup true false false d e = refl
regroup false b true d e = refl
regroup false b false d e = refl

holds-put-insert_block :
    (h f o host : ℕ) (b : BlkDesc) (locality : Locality)
    → holds h f o (put host (insert_block b (find_or host [] locality)) locality)
      ≡ (((h == host) && ((f == b.filename) && (o == b.offset))) || holds h f o locality)
holds-put-insert_block h f o host b locality =
    let blocks = insert_block b (find_or host [] locality) in
    elim (Bool-cases (h == host)) [
      | inl here ↦
          let same : h ≡ host = ground arith in
          holds-put h f o host blocks locality
          ∙ rw here (
              has_block-insert_block f o b (find_or host [] locality)
              ∙ if-or ((f == b.filename) && (o == b.offset)) _
              ∙ ap
                  (λ i.
                    ((f == b.filename) && (o == b.offset)) || has_block f o (find_or i [] locality))
                  (sym same))
      | inr there ↦ holds-put h f o host blocks locality ∙ rw there refl
    ]

-- After the loop over its replicas, a block stands at their hosts too.
holds-add_replicas :
    (name k h f o : ℕ) (hosts : List ℕ) (locality : Locality)
    → holds h f o (add_replicas name k hosts locality)
      ≡ (((f == name) && ((o == k) && among h hosts)) || holds h f o locality)
unfolding add_replicas
holds-add_replicas name k h f o [] locality = none_left (f == name) (o == k) (holds h f o locality)
holds-add_replicas name k h f o (host ∷ hosts) locality =
    let b : BlkDesc = record { filename = name; offset = k; block_location = host } in
    let blocks = insert_block b (find_or host [] locality) in
    holds-add_replicas name k h f o hosts (put host blocks locality)
    ∙ ap (λ e. ((f == name) && ((o == k) && among h hosts)) || e)
        (holds-put-insert_block h f o host b locality)
    ∙ regroup (f == name) (o == k) (h == host) (among h hosts) (holds h f o locality)

-- What is held after a loop is what was held before it, and the blocks that it is to add.
pub record Adds (P : ℕ → ℕ → ℕ → Type 0) (before after : Locality) : Type 0 where
  pub kept : (h f o : ℕ) → holds h f o before ≡ true → holds h f o after ≡ true
  pub added : (h f o : ℕ) → P h f o → holds h f o after ≡ true
  pub only : (h f o : ℕ) → holds h f o after ≡ true → (holds h f o before ≡ true) ⊎ P h f o

-- One loop after another, where their blocks together are those of `R`.
pub Adds-both :
    {P Q R : ℕ → ℕ → ℕ → Type 0} {before between after : Locality}
    → ((h f o : ℕ) → P h f o ⊎ Q h f o → R h f o)
    → ((h f o : ℕ) → R h f o → P h f o ⊎ Q h f o)
    → Adds P before between
    → Adds Q between after
    → Adds R before after
Adds-both join part first next = record {
  kept = λ h f o e. next.kept h f o (first.kept h f o e);
  added = λ h f o r. elim (part h f o r) [
    | inl p ↦ next.kept h f o (first.added h f o p)
    | inr q ↦ next.added h f o q
  ];
  only = λ h f o e. elim (next.only h f o e) [
    | inr q ↦ inr (join h f o (inr q))
    | inl e1 ↦ elim (first.only h f o e1) [ inr p ↦ inr (join h f o (inl p)) | inl e2 ↦ inl e2 ]
  ];
}

-- A loop with nothing to add, which ends at once.
pub Adds-nothing :
    {P : ℕ → ℕ → ℕ → Type 0} (locality : Locality)
    → ((h f o : ℕ) → ¬ (P h f o))
    → Adds P locality locality
Adds-nothing locality empty = record {
  kept = λ h f o e. e;
  added = λ h f o p. absurd (empty h f o p);
  only = λ h f o e. inl e;
}

-- The block of this name and offset, at one of these hosts.
abbrev pub At : ℕ → ℕ → List ℕ → ℕ → ℕ → ℕ → Type 0
At name k hosts h f o = (f ≡ name) × (o ≡ k) × (among h hosts ≡ true)

pub add_replicas-Adds :
    (name k : ℕ) (hosts : List ℕ) (locality : Locality)
    → Adds (At name k hosts) locality (add_replicas name k hosts locality)
add_replicas-Adds name k hosts locality = record {
  kept = λ h f o e. ground (arith, holds-add_replicas name k h f o hosts locality, e);
  added = λ h f o (same_f, same_o, there).
      ground (arith, holds-add_replicas name k h f o hosts locality, same_f, same_o, there);
  only = λ h f o e. ground (arith, holds-add_replicas name k h f o hosts locality, e);
}

module _ (hdfs : Hdfs) where
  -- The block is one of a file's blocks from the offset `k` on.
  abbrev pub From : FileInfo → ℕ → ℕ → ℕ → ℕ → Type 0
  From file k h f o =
      (f ≡ file.name)
      × (number : ℕ) × (o ≡ k + number * file.block_size)
      × (o < file.file_size)
      × (among h (hdfs.block_hosts f o) ≡ true)

  pub From-join :
      (file : FileInfo) (k h f o : ℕ)
      → k < file.file_size
      → At file.name k (hdfs.block_hosts file.name k) h f o ⊎ From file (k + file.block_size) h f o
      → From file k h f o
  From-join file k h f o more (inl (same_f, same_o, there)) =
      (same_f, 0, omega (arith, same_o), omega (arith, same_o, more), rw (same_f, same_o) there)
  From-join file k h f o more (inr (same_f, number, start, inside, there)) =
      (same_f, suc number, omega (arith, start), inside, there)

  pub From-part :
      (file : FileInfo) (k h f o : ℕ)
      → From file k h f o
      → At file.name k (hdfs.block_hosts file.name k) h f o ⊎ From file (k + file.block_size) h f o
  From-part file k h f o (same_f, zero, start, inside, there) =
      let same_o : o ≡ k = omega (arith, start) in
      inl (
        same_f,
        same_o,
        subst (λ i. among h (hdfs.block_hosts file.name i) ≡ true) same_o
            (subst (λ i. among h (hdfs.block_hosts i o) ≡ true) same_f there),
      )
  From-part file k h f o (same_f, suc number, start, inside, there) =
      inr (same_f, number, omega (arith, start), inside, there)

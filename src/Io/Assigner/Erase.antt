-- ===== src/Io/Assigner/Erase.antt =====
-- The removal of the replicas of a block, and the host that is selected.
use flexps.Base.{
  ℕ, ◌≡◌, refl, sym, ap, subst, ◌∙◌, List, [], ◌∷◌, none, some, Bool, true, false, ◌==◌, ◌&&◌,
  if◌then◌else◌, arith, Bool-cases, inl, inr, find, find_or, find-put, Ascending, Above, find-Above,
  put-Ascending, ==_refl,
}
use flexps.Io.Assigner.{
  BlkDesc, same_block, Locality, has_block, erase_block, erase_replicas, unfinished_host, touch,
}

-- No block stands twice in a set.
abbrev pub NoRepeat : List BlkDesc → Type 0
NoRepeat [] = Unit
NoRepeat (b ∷ blocks) = (has_block b.filename b.offset blocks ≡ false) × NoRepeat blocks

pub has_block-erase_block :
    (f o f' o' : ℕ) (blocks : List BlkDesc)
    → NoRepeat blocks
    → has_block f' o' (erase_block f o blocks)
      ≡ (if (f' == f) && (o' == o) then false else has_block f' o' blocks)
unfolding erase_block
has_block-erase_block f o f' o' [] h = ground arith
has_block-erase_block f o f' o' (b ∷ blocks) h =
    ground (arith, has_block-erase_block f o f' o' blocks h.1, h.0)

-- The blocks of a host, where its entry is the first, or another one is.
find_or_first :
    (h k : ℕ) (blocks : List BlkDesc) (locality : Locality)
    → (h == k) ≡ true
    → find_or h [] ((k, blocks) ∷ locality) ≡ blocks
find_or_first h k blocks locality here = rw (find_or, here) refl

find_or_later :
    (h k : ℕ) (blocks : List BlkDesc) (locality : Locality)
    → (h == k) ≡ false
    → find_or h [] ((k, blocks) ∷ locality) ≡ find_or h [] locality
find_or_later h k blocks locality there = rw (find_or, there) refl

pub find_or-erase_replicas :
    (h f o : ℕ) (locality : Locality)
    → find_or h [] (erase_replicas f o locality) ≡ erase_block f o (find_or h [] locality)
unfolding erase_replicas erase_block
find_or-erase_replicas h f o [] = refl
find_or-erase_replicas h f o ((host, blocks) ∷ locality) = elim (Bool-cases (h == host)) [
  | inl here ↦
      find_or_first h host (erase_block f o blocks) (erase_replicas f o locality) here
      ∙ ap (erase_block f o) (sym (find_or_first h host blocks locality here))
  | inr there ↦
      find_or_later h host (erase_block f o blocks) (erase_replicas f o locality) there
      ∙ find_or-erase_replicas h f o locality
      ∙ ap (erase_block f o) (sym (find_or_later h host blocks locality there))
]

pub NoRepeat-erase_block :
    (f o : ℕ) (blocks : List BlkDesc) → NoRepeat blocks → NoRepeat (erase_block f o blocks)
unfolding erase_block
NoRepeat-erase_block f o [] h = tt
NoRepeat-erase_block f o (b ∷ blocks) h =
    let kept : has_block b.filename b.offset (erase_block f o blocks) ≡ false =
      ground (arith, has_block-erase_block f o b.filename b.offset blocks h.1, h.0) in
    elim (Bool-cases (same_block f o b)) [
      | inl gone ↦ rw gone h.1
      | inr stays ↦ rw stays (kept, NoRepeat-erase_block f o blocks h.1)
    ]

Above-erase_replicas :
    (k f o : ℕ) (locality : Locality) → Above k locality → Above k (erase_replicas f o locality)
unfolding erase_replicas
Above-erase_replicas k f o [] a = tt
Above-erase_replicas k f o (x ∷ locality) a = (a.0, Above-erase_replicas k f o locality a.1)

pub Ascending-erase_replicas :
    (f o : ℕ) (locality : Locality) → Ascending locality → Ascending (erase_replicas f o locality)
unfolding erase_replicas
Ascending-erase_replicas f o [] a = tt
Ascending-erase_replicas f o ((k, blocks) ∷ locality) a =
    (Above-erase_replicas k f o locality a.0, Ascending-erase_replicas f o locality a.1)

-- The hosts stand in their order, and hold each block once.
pub record Stored (locality : Locality) : Type 0 where
  pub ascending : Ascending locality
  pub no_repeat : (h : ℕ) → NoRepeat (find_or h [] locality)

-- Whether a host holds a block that is not handed out.
abbrev pub holds : ℕ → ℕ → ℕ → Locality → Bool
holds h f o locality = has_block f o (find_or h [] locality)

pub unfinished_host-none :
    (locality : Locality) → unfinished_host locality ≡ none → (h : ℕ) → find_or h [] locality ≡ []
unfolding unfinished_host
unfinished_host-none [] e h = refl
unfinished_host-none ((k, []) ∷ locality) e h = elim (Bool-cases (h == k)) [
  | inl here ↦ find_or_first h k [] locality here
  | inr there ↦ find_or_later h k [] locality there ∙ unfinished_host-none locality e h
]
unfinished_host-none ((k, b ∷ blocks) ∷ locality) e h = absurd (ground arith)

-- A list with its first element.
abbrev pub Inhabited : List BlkDesc → Type 0
Inhabited blocks = (b : BlkDesc) × (rest : List BlkDesc) × (blocks ≡ b ∷ rest)

pub unfinished_host-some :
    (locality : Locality) (h : ℕ)
    → Ascending locality
    → unfinished_host locality ≡ some h
    → Inhabited (find_or h [] locality)
unfolding unfinished_host
unfinished_host-some [] h a e = absurd (ground arith)
unfinished_host-some ((k, []) ∷ locality) h a e =
    let (b, rest, found) = unfinished_host-some locality h a.1 e in
    elim (Bool-cases (h == k)) [
      | inl here ↦
          let same : h ≡ k = ground arith in
          let missing : find h locality ≡ none =
            ap (λ i. find i locality) same ∙ find-Above k k locality a.0 (omega arith) in
          absurd (ground (arith, found, missing))
      | inr there ↦ (b, rest, find_or_later h k [] locality there ∙ found)
    ]
unfinished_host-some ((k, b ∷ blocks) ∷ locality) h a e =
    let same : k ≡ h = ground arith in
    (
      b,
      blocks,
      subst (λ i. find_or i [] ((k, b ∷ blocks) ∷ locality) ≡ b ∷ blocks) same
          (find_or_first k k (b ∷ blocks) locality (==_refl k)),
    )

pub find_or-touch :
    (h host : ℕ) (locality : Locality) → find_or h [] (touch host locality) ≡ find_or h [] locality
find_or-touch h host locality = elim (Bool-cases (h == host)) [
  | inl here ↦
      let same : h ≡ host = ground arith in
      let found : find h (touch host locality) ≡ some (find_or host [] locality) =
        find-put h host (find_or host [] locality) locality ∙ rw here refl in
      rw (find_or, found) (ap (λ i. find_or i [] locality) (sym same))
  | inr there ↦
      let found : find h (touch host locality) ≡ find h locality =
        find-put h host (find_or host [] locality) locality ∙ rw there refl in
      rw (find_or, found) refl
]

pub touch-Stored : (host : ℕ) (locality : Locality) → Stored locality → Stored (touch host locality)
touch-Stored host locality v = record {
  ascending = put-Ascending host (find_or host [] locality) locality v.ascending;
  no_repeat = λ i. subst NoRepeat (sym (find_or-touch i host locality)) (v.no_repeat i);
}

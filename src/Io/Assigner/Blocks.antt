-- ===== src/Io/Assigner/Blocks.antt =====
-- The selection of one block for a host that asks: its two outcomes.
use flexps.Base.{
  ℕ, ◌≡◌, refl, sym, ap, subst, ◌∙◌, List, [], ◌∷◌, Option, none, some, true, false, ◌==◌, ◌&&◌,
  if◌then◌else◌, Option-cases, inl, inr, ◌⊎◌, find_or, put-Ascending,
}
use flexps.Io.Assigner.{
  BlkDesc, Locality, has_block, erase_replicas, unfinished_host, selected_host, touch, select_block,
}
use flexps.Io.Assigner.Erase.{
  NoRepeat, has_block-erase_block, find_or-erase_replicas, NoRepeat-erase_block,
  Ascending-erase_replicas, Stored, holds, unfinished_host-none, Inhabited, unfinished_host-some,
  find_or-touch, touch-Stored,
}

-- `begin` answers an element of a set that is not empty.
abbrev pub Begins : (List BlkDesc → Option BlkDesc) → Type 0
Begins begin =
    (b : BlkDesc) (rest : List BlkDesc)
    → (first : BlkDesc) × (begin (b ∷ rest) ≡ some first)
      × (has_block first.filename first.offset (b ∷ rest) ≡ true)

-- Nothing is handed out, as no host has a block left.
abbrev pub Finished : (List BlkDesc → Option BlkDesc) → ℕ → Locality → Type 0
Finished begin host locality =
    (select_block begin host locality ≡ some (none, touch host locality))
    × ((h f o : ℕ) → holds h f o locality ≡ false)

-- A block that some host holds is handed out, the asking host's if it has one; no host holds it any
-- more, and no other block is lost.
abbrev pub HandedOut : (List BlkDesc → Option BlkDesc) → ℕ → Locality → Type 0
HandedOut begin host locality =
    (f : ℕ) × (o : ℕ) × (h : ℕ) × (after : Locality) × (select_block begin host locality
      ≡ some (some (f, o), after))
    × (holds h f o locality ≡ true)
    × ((find_or host [] locality ≡ []) ⊎ (h ≡ host))
    × ((h' f' o' : ℕ)
        → holds h' f' o' after
          ≡ (if (f' == f) && (o' == o) then false else holds h' f' o' locality))
    × Stored after

-- The host that is selected has a block.
selects :
    (begin : List BlkDesc → Option BlkDesc) (host h : ℕ) (locality : Locality)
    → Begins begin
    → Stored locality
    → selected_host host (touch host locality) ≡ some h
    → Inhabited (find_or h [] (touch host locality))
    → ((find_or host [] locality ≡ []) ⊎ (h ≡ host))
    → HandedOut begin host locality
unfolding select_block
selects begin host h locality begins v e (b, rest, found) own =
    let (first, begun, there) = begins b rest in
    let f = first.filename in
    let o = first.offset in
    let loc = touch host locality in
    let before : (i : ℕ) → find_or i [] loc ≡ find_or i [] locality =
      λ i. find_or-touch i host locality in
    let w = touch-Stored host locality v in
    let begun' : begin (find_or h [] loc) ≡ some first = ap begin found ∙ begun in
    (
      f,
      o,
      h,
      erase_replicas f o loc,
      rw (select_block, e, begun') refl,
      ap (has_block f o) (sym (before h) ∙ found) ∙ there,
      own,
      λ h' f' o'.
          ap (has_block f' o') (find_or-erase_replicas h' f o loc)
          ∙ has_block-erase_block f o f' o' (find_or h' [] loc) (w.no_repeat h')
          ∙ ap (λ l. if (f' == f) && (o' == o) then false else has_block f' o' l) (before h'),
      record {
        ascending = Ascending-erase_replicas f o loc w.ascending;
        no_repeat = λ i.
            subst NoRepeat (sym (find_or-erase_replicas i f o loc))
              (NoRepeat-erase_block f o (find_or i [] loc) (w.no_repeat i));
      },
    )

List-cases : (blocks : List BlkDesc) → (blocks ≡ []) ⊎ Inhabited blocks
List-cases [] = inl refl
List-cases (b ∷ blocks) = inr (b, blocks, refl)

-- A request for a block gives none only if no host has one left. Otherwise it gives a block that some
-- host holds, one of the asking host if there is one; then no host holds it any more, so that it is
-- handed out once, and no other block is lost.
pub select_block_cases :
    (begin : List BlkDesc → Option BlkDesc) (host : ℕ) (locality : Locality)
    → Begins begin
    → Stored locality
    → Finished begin host locality ⊎ HandedOut begin host locality
unfolding selected_host select_block
select_block_cases begin host locality begins v =
    let loc = touch host locality in
    let asc = put-Ascending host (find_or host [] locality) locality v.ascending in
    elim (List-cases (find_or host [] loc)) [
      | inl empty ↦
          let chosen : selected_host host loc ≡ unfinished_host loc =
            rw (selected_host, empty) refl in
          elim (Option-cases (unfinished_host loc)) [
            | inl finished ↦ inl (
              rw (select_block, chosen ∙ finished) refl,
              λ h f o.
                  ap (has_block f o)
                    (sym (find_or-touch h host locality) ∙ unfinished_host-none loc finished h),
            )
            | inr (h, found) ↦ inr (
                selects begin host h locality begins v (chosen ∙ found)
                  (unfinished_host-some loc h asc found)
                  (inl (sym (find_or-touch host host locality) ∙ empty)))
          ]
      | inr (b, rest, found) ↦ inr (
          selects begin host host locality begins v (rw (selected_host, found) refl)
            (b, rest, found) (inr refl))
    ]

-- ===== src/Worker/TableBox/Sorting.antt =====
-- Sorting the parts of a reply gives one list, whatever the order in which they came.
use flexps.Base.{ℕ, ◌+◌, ◌<◌, ◌≡◌, ◌≢◌, refl, sym, subst, ◌∙◌, List, [], ◌∷◌, All, length, arith}
use mathlib.Core.List.{Permᴰ}
use flexps.Worker.RangeManager.{KvPairs}
use flexps.Worker.TableBox.{front, insert_part, sort}

module _ {Val : Type 0} where
  -- No two parts begin with the same key.
  abbrev pub Distinct : List (KvPairs Val) → Type 0
  Distinct [] = Unit
  Distinct (s ∷ parts) =
      All (λ (t : KvPairs Val). front s.keys ≢ front t.keys) parts × Distinct parts

  -- The parts rise with their first keys.
  abbrev pub RisingParts : List (KvPairs Val) → Type 0
  RisingParts [] = Unit
  RisingParts (s ∷ parts) =
      All (λ (t : KvPairs Val). front s.keys < front t.keys) parts × RisingParts parts

  pub Perm-All :
      (P : KvPairs Val → Type 0) (xs ys : List (KvPairs Val)) → Permᴰ xs ys → All P xs → All P ys
  Perm-All P [] [] Permᴰ.nil a = tt
  Perm-All P (x ∷ xs) (y ∷ ys) (Permᴰ.cons e q) a = (rw (← e) a.0, Perm-All P xs ys q a.1)
  Perm-All P (x ∷ y ∷ xs) (y' ∷ x' ∷ ys) (Permᴰ.swap e f) a =
      (rw (← f) a.1.0, (rw (← e) a.0, a.1.1))
  Perm-All P xs zs (Permᴰ.trans {l₂ = ys} q r) a = Perm-All P ys zs r (Perm-All P xs ys q a)

  pub Perm-Distinct : (xs ys : List (KvPairs Val)) → Permᴰ xs ys → Distinct xs → Distinct ys
  Perm-Distinct [] [] Permᴰ.nil d = tt
  Perm-Distinct (x ∷ xs) (y ∷ ys) (Permᴰ.cons e q) d = (
    rw (← e) (Perm-All (λ t. front x.keys ≢ front t.keys) xs ys q d.0),
    Perm-Distinct xs ys q d.1,
  )
  Perm-Distinct (x ∷ y ∷ xs) (y' ∷ x' ∷ ys) (Permᴰ.swap e f) d =
      subst (λ z. Distinct (z ∷ x' ∷ ys)) f
        (subst (λ z. Distinct (y ∷ z ∷ ys)) e (((λ same. d.0.0 (sym same)), d.1.0), (d.0.1, d.1.1)))
  Perm-Distinct xs zs (Permᴰ.trans {l₂ = ys} q r) d =
      Perm-Distinct ys zs r (Perm-Distinct xs ys q d)

  insert_part_swap :
      (s t : KvPairs Val) (parts : List (KvPairs Val))
      → front s.keys ≢ front t.keys
      → insert_part s (insert_part t parts) ≡ insert_part t (insert_part s parts)
  insert_part_swap s t [] h = ground arith
  insert_part_swap s t (x ∷ parts) h = ground (arith, insert_part_swap s t parts h)

  pub sort-Perm : (xs ys : List (KvPairs Val)) → Permᴰ xs ys → Distinct xs → sort xs ≡ sort ys
  unfolding sort
  sort-Perm [] [] Permᴰ.nil d = refl
  sort-Perm (x ∷ xs) (y ∷ ys) (Permᴰ.cons e q) d = rw (e, sort-Perm xs ys q d.1)
  sort-Perm (x ∷ y ∷ xs) (y' ∷ x' ∷ ys) (Permᴰ.swap e f) d =
      rw (e, f) (insert_part_swap x' y' (sort xs) (rw (← e, ← f) d.0.0))
  sort-Perm xs zs (Permᴰ.trans {l₂ = ys} q r) d =
      sort-Perm xs ys q d ∙ sort-Perm ys zs r (Perm-Distinct xs ys q d)

  insert_part_first :
      (s : KvPairs Val) (parts : List (KvPairs Val))
      → All (λ (t : KvPairs Val). front s.keys < front t.keys) parts
      → insert_part s parts ≡ s ∷ parts
  insert_part_first s [] a = refl
  insert_part_first s (t ∷ parts) a = ground arith

  pub sort-Rising : (xs : List (KvPairs Val)) → RisingParts xs → sort xs ≡ xs
  unfolding sort
  sort-Rising [] r = refl
  sort-Rising (x ∷ xs) r = rw (sort-Rising xs r.1) (insert_part_first x xs r.0)

  distinct_from :
      (s : KvPairs Val) (parts : List (KvPairs Val))
      → All (λ (t : KvPairs Val). front s.keys < front t.keys) parts
      → All (λ (t : KvPairs Val). front s.keys ≢ front t.keys) parts
  distinct_from s [] a = tt
  distinct_from s (t ∷ parts) a = (omega (arith, a.0), distinct_from s parts a.1)

  pub Rising-Distinct : (xs : List (KvPairs Val)) → RisingParts xs → Distinct xs
  Rising-Distinct [] r = tt
  Rising-Distinct (x ∷ xs) r = (distinct_from x xs r.0, Rising-Distinct xs r.1)

  -- The number of keys of the parts.
  abbrev pub count_keys : List (KvPairs Val) → ℕ
  count_keys [] = 0
  count_keys (s ∷ parts) = length s.keys + count_keys parts

  pub count_keys-Perm : (xs ys : List (KvPairs Val)) → Permᴰ xs ys → count_keys xs ≡ count_keys ys
  count_keys-Perm [] [] Permᴰ.nil = refl
  count_keys-Perm (x ∷ xs) (y ∷ ys) (Permᴰ.cons e q) = rw (e, count_keys-Perm xs ys q)
  count_keys-Perm (x ∷ y ∷ xs) (y' ∷ x' ∷ ys) (Permᴰ.swap e f) = rw (e, f) (omega arith)
  count_keys-Perm xs zs (Permᴰ.trans {l₂ = ys} q r) =
      count_keys-Perm xs ys q ∙ count_keys-Perm ys zs r

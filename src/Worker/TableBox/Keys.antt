-- ===== src/Worker/TableBox/Keys.antt =====
-- Keys that rise, and the place of the keys of one part among them.
use flexps.Base.{
  ℕ, suc, ◌+◌, ◌≤◌, ◌<◌, ◌≡◌, refl, ◌∙◌, List, [], ◌∷◌, ◌++◌, some, length, All, All-append_right,
  IsSorted, lower_bound, add_u32, add_u32_exact, u32_mod, arith,
}
use flexps.Message.{Platform}
use flexps.Worker.TableBox.{back, check_part}

-- The keys rise strictly.
abbrev pub Rising : List ℕ → Type 0
Rising [] = Unit
Rising (k ∷ ks) = All (λ j. k < j) ks × Rising ks

All-le : (k : ℕ) (ks : List ℕ) → All (λ j. k < j) ks → All (λ j. k ≤ j) ks
All-le k [] a = tt
All-le k (j ∷ ks) a = (omega (arith, a.0), All-le k ks a.1)

Rising-IsSorted : (ks : List ℕ) → Rising ks → IsSorted ks
Rising-IsSorted [] r = tt
Rising-IsSorted (k ∷ ks) r = (All-le k ks r.0, Rising-IsSorted ks r.1)

pub Rising-append_right : (xs ys : List ℕ) → Rising (xs ++ ys) → Rising ys
Rising-append_right [] ys r = r
Rising-append_right (x ∷ xs) ys r = Rising-append_right xs ys r.1

All-trans : (j k : ℕ) (ks : List ℕ) → j ≤ k → All (λ i. k ≤ i) ks → All (λ i. j < suc i) ks
All-trans j k [] h a = tt
All-trans j k (i ∷ ks) h a = (omega (arith, a.0), All-trans j k ks h a.1)

-- Keys below `x` count in full.
lower_bound-append :
    (xs ys : List ℕ) (x : ℕ)
    → All (λ j. j < x) xs
    → lower_bound (xs ++ ys) x ≡ length xs + lower_bound ys x
lower_bound-append [] ys x a = omega arith
lower_bound-append (k ∷ xs) ys x a = ground (arith, lower_bound-append xs ys x a.1)

lower_bound_first : (x : ℕ) (ks : List ℕ) → All (λ j. x ≤ j) ks → lower_bound ks x ≡ 0
lower_bound_first x [] a = refl
lower_bound_first x (k ∷ ks) a = ground arith

-- What lies before a key of a rising list is below it.
below_next : (xs : List ℕ) (k : ℕ) (ys : List ℕ) → Rising (xs ++ (k ∷ ys)) → All (λ j. j < k) xs
below_next [] k ys r = tt
below_next (x ∷ xs) k ys r =
    ((All-append_right (λ j. x < j) xs (k ∷ ys) r.0).0, below_next xs k ys r.1)

below_back :
    (k : ℕ) (ks ys : List ℕ)
    → Rising (k ∷ (ks ++ ys))
    → All (λ j. j < back k ks + 1) (k ∷ ks) × All (λ j. back k ks + 1 ≤ j) ys × (k ≤ back k ks)
below_back k [] ys r = ((omega arith, tt), above k ys r.0, omega arith)
  where
    above : (k : ℕ) (ys : List ℕ) → All (λ j. k < j) ys → All (λ j. k + 1 ≤ j) ys
    above k [] a = tt
    above k (y ∷ ys) a = (omega (arith, a.0), above k ys a.1)
below_back k (k' ∷ ks) ys r =
    let (l, h, up) = below_back k' ks ys r.1 in
    ((omega (arith, up, r.0.0), l), h, omega (arith, up, r.0.0))

module _ ⦃p : Platform⦄ where
  -- The keys of one part are found in the request at the place of that part.
  pub check_part-Rising :
      (pre post ks : List ℕ) (k : ℕ)
      → Rising (pre ++ (k ∷ (ks ++ post)))
      → back k ks + 1 < u32_mod
      → check_part (pre ++ (k ∷ (ks ++ post))) (k ∷ ks) ≡ some tt
  unfolding check_part
  check_part-Rising pre post ks k r small =
      let keys = pre ++ (k ∷ (ks ++ post)) in
      let r' = Rising-append_right pre (k ∷ (ks ++ post)) r in
      let (l, h, up) = below_back k ks post r' in
      let next : add_u32 (back k ks) 1 ≡ back k ks + 1 = add_u32_exact (back k ks) 1 small in
      let first : lower_bound keys k ≡ length pre =
        lower_bound-append pre (k ∷ (ks ++ post)) k (below_next pre k (ks ++ post) r)
        ∙ omega (
          arith,
          lower_bound_first k (k ∷ (ks ++ post)) (omega arith, All-le k (ks ++ post) r'.0),
        ) in
      let pre_below : All (λ j. j < back k ks + 1) pre =
        wider pre (below_next pre k (ks ++ post) r) (omega (arith, up)) in
      let last : lower_bound keys (back k ks + 1) ≡ length pre + suc (length ks) =
        lower_bound-append pre (k ∷ (ks ++ post)) (back k ks + 1) pre_below
        ∙ omega (
          arith,
          lower_bound-append (k ∷ ks) post (back k ks + 1) l,
          lower_bound_first (back k ks + 1) post h,
        ) in
      rw
        (next, p.find_range_lem keys k (back k ks + 1) (Rising-IsSorted keys r) (omega (arith, up)))
        (ground (arith, first, last))
    where
      wider : {a b : ℕ} (xs : List ℕ) → All (λ j. j < a) xs → a ≤ b → All (λ j. j < b) xs
      wider [] s h = tt
      wider (x ∷ xs) s h = (omega (arith, s.0, h), wider xs s.1 h)

-- ===== src/Worker/RangeManager/Parts.antt =====
-- One part of a request: where it begins and ends, and whose it is.
use flexps.Base.{
  ℕ, zero, suc, ◌+◌, ◌≤◌, ◌<◌, ◌≡◌, refl, sym, ap, ◌∙◌, List, [], ◌∷◌, ◌++◌, length, take, drop,
  lower_bound, All, IsSorted, arith, ◌⊎◌, lower_bound-le, drop-lower_bound, take-append-drop,
  drop-drop, length-drop, All-drop, IsSorted-drop,
}
use flexps.Message.{Platform}
use flexps.Worker.RangeManager.{KvPairs, SlicedKvs, Range}

-- The ranges follow one another from `lo` on, without a gap.
abbrev pub Contiguous : ℕ → List Range → Type 0
Contiguous lo [] = Unit
Contiguous lo ((first, last) ∷ ranges) = (first ≡ lo) × (lo ≤ last) × Contiguous last ranges

-- The end of the last range.
abbrev pub end_of : ℕ → List Range → ℕ
end_of lo [] = lo
end_of lo ((first, last) ∷ ranges) = end_of last ranges

abbrev pub all_keys : SlicedKvs → List ℕ
all_keys [] = []
all_keys ((id, kvs) ∷ parts) = kvs.keys ++ all_keys parts

abbrev pub all_vals : SlicedKvs → List ℕ
all_vals [] = []
all_vals ((id, kvs) ∷ parts) = kvs.vals ++ all_vals parts

-- A part goes to the server whose range holds all its keys, and it has a key.
abbrev pub Placed : List Range → List ℕ → ℕ × KvPairs ℕ → Type 0
Placed ((first, last) ∷ ranges) (id ∷ ids) part =
    ((part.0 ≡ id) × All (λ k. (first ≤ k) × (k < last)) part.1.keys × (0 < length part.1.keys))
    ⊎ Placed ranges ids part
Placed _ _ part = ⊥

pub All-weaken {ℓ κ κ'} :
    {A : Type ℓ} (P : A → Type κ) (Q : A → Type κ')
    → ((x : A) → P x → Q x)
    → (xs : List A) → All P xs
    → All Q xs
All-weaken P Q f [] a = tt
All-weaken P Q f (x ∷ xs) a = (f x a.0, All-weaken P Q f xs a.1)

pub part_in_range :
    (first last n : ℕ) (ks : List ℕ)
    → All (λ k. first ≤ k) ks
    → All (λ k. k < last) (take n ks)
    → All (λ k. (first ≤ k) × (k < last)) (take n ks)
part_in_range first last zero ks a l = tt
part_in_range first last (suc n) [] a l = tt
part_in_range first last (suc n) (k ∷ ks) a l = ((a.0, l.0), part_in_range first last n ks a.1 l.1)

module _ ⦃p : Platform⦄ where
  pub segment_keys :
      (xs : List ℕ) (b n : ℕ)
      → n ≤ length (drop b xs)
      → b ≤ length xs
      → p.segment xs b (b + n) ≡ take n (drop b xs)
  segment_keys xs b n h l =
      p.segment_lem xs b (b + n) (omega arith) (omega (arith, length-drop b xs))
      ∙ ap (λ i. take i (drop b xs)) (omega arith)

-- What holds at each round of the loop of `Slice`: the keys from `b` on are sorted, and lie in the
-- ranges that are left.
pub record Ready (send : KvPairs ℕ) (b lo : ℕ) (ranges : List Range) (ids : List ℕ) : Type 0 where
  pub same_length : length ids ≡ length ranges
  pub contiguous : Contiguous lo ranges
  pub sorted : IsSorted (drop b send.keys)
  pub in_bounds : b ≤ length send.keys
  pub above : All (λ k. lo ≤ k) (drop b send.keys)
  pub below : All (λ k. k < end_of lo ranges) (drop b send.keys)

-- The number of keys that the next range takes.
abbrev pub next_count : KvPairs ℕ → ℕ → ℕ → ℕ
next_count send b last = lower_bound (drop b send.keys) last

module _ (send : KvPairs ℕ) where
  pub next_in_bounds :
      (b last : ℕ) → b ≤ length send.keys → b + next_count send b last ≤ length send.keys
  next_in_bounds b last h =
      omega (arith, lower_bound-le (drop b send.keys) last, length-drop b send.keys)

  pub Ready-next :
      (b lo first last id : ℕ) (ranges : List Range) (ids : List ℕ)
      → Ready send b lo ((first, last) ∷ ranges) (id ∷ ids)
      → Ready send (b + next_count send b last) last ranges ids
  Ready-next b lo first last id ranges ids r =
      let n = next_count send b last in
      let e : drop (b + n) send.keys ≡ drop n (drop b send.keys) = sym (drop-drop b n send.keys) in
      record {
        same_length = omega (arith, r.same_length);
        contiguous = r.contiguous.2;
        sorted = rw e (IsSorted-drop n (drop b send.keys) r.sorted);
        in_bounds = next_in_bounds b last r.in_bounds;
        above = rw e (drop-lower_bound (drop b send.keys) last r.sorted);
        below = rw e (All-drop (λ k. k < end_of last ranges) n (drop b send.keys) r.below);
      }

  pub keys_at_end : (b lo : ℕ) (ids : List ℕ) → Ready send b lo [] ids → drop b send.keys ≡ []
  keys_at_end b lo ids r = none_between (drop b send.keys) r.above r.below
    where
      none_between : (ks : List ℕ) → All (λ k. lo ≤ k) ks → All (λ k. k < lo) ks → ks ≡ []
      none_between [] a l = refl
      none_between (k ∷ ks) a l = absurd (omega (arith, a.0, l.0))

  pub cut :
      (b last : ℕ)
      → take (next_count send b last) (drop b send.keys)
          ++ drop (b + next_count send b last) send.keys
        ≡ drop b send.keys
  cut b last =
      rw (← drop-drop b (next_count send b last) send.keys)
        (take-append-drop (next_count send b last) (drop b send.keys))

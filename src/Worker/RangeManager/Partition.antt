-- ===== src/Worker/RangeManager/Partition.antt =====
-- The slices of a request are its keys and values, cut at the ends of the ranges.
use flexps.Base.{
  ℕ, ◌+◌, ◌-◌, ◌*◌, ◌/◌, ◌≤◌, ◌<◌, ◌≡◌, ◌≢◌, refl, sym, ap, ◌∙◌, List, [], ◌∷◌, ◌++◌, some, ltb,
  length, take, drop, lower_bound, All, IsSorted, arith, Bool-cases, inl, inr, lower_bound-le,
  take-lower_bound, take-append-drop, drop-drop, length-drop, drop_all, ltb→lt, length-take_le,
}
use mathlib.Core.Path.{ap₂}
use flexps.Message.{Platform}
use flexps.Worker.RangeManager.{
  KvPairs, SlicedKvs, Range, SimpleRangePartitionManager, slice_from, slice,
}
use flexps.Worker.RangeManager.Parts.{
  keys_at_end, Contiguous, end_of, all_keys, all_vals, Placed, All-weaken, part_in_range,
  segment_keys, Ready, next_count, next_in_bounds, Ready-next, cut,
}

mul_mono : (a b r : ℕ) → a ≤ b → a * r ≤ b * r
mul_mono a b r h = grind arith

module _ ⦃p : Platform⦄ (send : KvPairs ℕ) (ratio : ℕ) where
  part_keys :
      (b last : ℕ)
      → b ≤ length send.keys
      → p.segment send.keys b (b + next_count send b last)
        ≡ take (next_count send b last) (drop b send.keys)
  part_keys b last h =
      segment_keys send.keys b (next_count send b last) (lower_bound-le (drop b send.keys) last) h

  all_keys-slice_from :
      (b lo : ℕ) (ranges : List Range) (ids : List ℕ)
      → Ready send b lo ranges ids
      → all_keys (slice_from send ratio b ranges ids) ≡ drop b send.keys
  unfolding slice_from
  all_keys-slice_from b lo [] ids r = rw (keys_at_end send b lo ids r)
  all_keys-slice_from b lo (x ∷ ranges) [] r = absurd (omega (arith, r.same_length))
  all_keys-slice_from b lo ((first, last) ∷ ranges) (id ∷ ids) r =
      let n = next_count send b last in
      let rest =
        all_keys-slice_from (b + n) last ranges ids
          (Ready-next send b lo first last id ranges ids r) in
      elim (Bool-cases (ltb b (b + n))) [
        | inl some_keys ↦ rw (some_keys, part_keys b last r.in_bounds, rest) (cut send b last)
        | inr no_keys ↦
            let zero_keys : n ≡ 0 = ground arith in
            rw no_keys (rest ∙ ap (λ i. drop i send.keys) (omega (arith, zero_keys)))
      ]

  slice_from-Placed :
      (b lo : ℕ) (ranges : List Range) (ids : List ℕ)
      → Ready send b lo ranges ids
      → All (Placed ranges ids) (slice_from send ratio b ranges ids)
  unfolding slice_from
  slice_from-Placed b lo [] ids r = tt
  slice_from-Placed b lo (x ∷ ranges) [] r = absurd (omega (arith, r.same_length))
  slice_from-Placed b lo ((first, last) ∷ ranges) (id ∷ ids) r =
      let n = next_count send b last in
      let rest =
        All-weaken (Placed ranges ids) (Placed ((first, last) ∷ ranges) (id ∷ ids)) (λ x h. inr h)
          (slice_from send ratio (b + n) ranges ids)
          (slice_from-Placed (b + n) last ranges ids
            (Ready-next send b lo first last id ranges ids r)) in
      elim (Bool-cases (ltb b (b + n))) [
        | inl some_keys ↦
            rw (some_keys, part_keys b last r.in_bounds)
              (
                inl (
                  refl,
                  part_in_range first last n (drop b send.keys) (rw r.contiguous.0 r.above)
                      (take-lower_bound (drop b send.keys) last),
                  omega (
                    arith,
                    ltb→lt b (b + n) some_keys,
                    length-take_le n (drop b send.keys) (lower_bound-le (drop b send.keys) last),
                  ),
                ),
                rest,
              )
        | inr no_keys ↦ rw no_keys rest
      ]

  part_vals :
      (b n : ℕ)
      → length send.vals ≡ length send.keys * ratio
      → b + n ≤ length send.keys
      → p.segment send.vals (b * ratio) ((b + n) * ratio) ++ drop ((b + n) * ratio) send.vals
        ≡ drop (b * ratio) send.vals
  part_vals b n e h =
      let m = (b + n) * ratio - b * ratio in
      let le : b * ratio ≤ (b + n) * ratio = mul_mono b (b + n) ratio (omega arith) in
      let fits : (b + n) * ratio ≤ length send.vals =
        rw e (mul_mono (b + n) (length send.keys) ratio h) in
      let total : (b + n) * ratio ≡ b * ratio + m = omega (arith, le) in
      rw (p.segment_lem send.vals (b * ratio) ((b + n) * ratio) le fits) (
        ap (λ i. take m (drop (b * ratio) send.vals) ++ drop i send.vals) total
        ∙ ap (λ ys. take m (drop (b * ratio) send.vals) ++ ys)
            (sym (drop-drop (b * ratio) m send.vals))
        ∙ take-append-drop m (drop (b * ratio) send.vals))

  all_vals-slice_from :
      (b lo : ℕ) (ranges : List Range) (ids : List ℕ)
      → Ready send b lo ranges ids
      → length send.vals ≡ length send.keys * ratio
      → all_vals (slice_from send ratio b ranges ids) ≡ drop (b * ratio) send.vals
  unfolding slice_from
  all_vals-slice_from b lo [] ids r e =
      let at_end : b ≡ length send.keys =
        omega
          (arith, r.in_bounds, length-drop b send.keys, ap length (keys_at_end send b lo ids r)) in
      sym (drop_all (b * ratio) send.vals (rw (e, at_end) (omega arith)))
  all_vals-slice_from b lo (x ∷ ranges) [] r e = absurd (omega (arith, r.same_length))
  all_vals-slice_from b lo ((first, last) ∷ ranges) (id ∷ ids) r e =
      let n = next_count send b last in
      let rest =
        all_vals-slice_from (b + n) last ranges ids
          (Ready-next send b lo first last id ranges ids r) e in
      elim (Bool-cases (ltb b (b + n))) [
        | inl some_keys ↦
            rw (some_keys, rest) (part_vals b n e (next_in_bounds send b last r.in_bounds))
        | inr no_keys ↦
            let zero_keys : n ≡ 0 = ground arith in
            rw no_keys (rest ∙ ap (λ i. drop (i * ratio) send.vals) (omega (arith, zero_keys)))
      ]

lower_bound_none : (x : ℕ) (ks : List ℕ) → All (λ k. x ≤ k) ks → lower_bound ks x ≡ 0
lower_bound_none x [] a = refl
lower_bound_none x (k ∷ ks) a = ground arith

mul_div_cancel : (n r : ℕ) → n ≢ 0 → (n * r) / n ≡ r
mul_div_cancel n r h = grind arith

-- A request that a `SimpleRangePartitionManager` can serve: sorted keys, at least one, all within
-- contiguous ranges, with `ratio` characters of values for each key.
pub record Servable (m : SimpleRangePartitionManager) (send : KvPairs ℕ) (ratio : ℕ) : Type 0 where
  pub first : ℕ
  pub last : ℕ
  pub others : List Range
  pub has_range : m.ranges ≡ (first, last) ∷ others
  pub contiguous : Contiguous first m.ranges
  pub same_length : length m.server_thread_ids ≡ length m.ranges
  pub sorted : IsSorted send.keys
  pub has_key : length send.keys ≢ 0
  pub above : All (λ k. first ≤ k) send.keys
  pub below : All (λ k. k < end_of first m.ranges) send.keys
  pub even : length send.vals ≡ length send.keys * ratio

slice-slice_from :
    ⦃p : Platform⦄ (m : SimpleRangePartitionManager) (send : KvPairs ℕ) (first last : ℕ)
    (others : List Range)
    → m.ranges ≡ (first, last) ∷ others
    → length send.keys ≢ 0
    → slice m send
      ≡ some (
          slice_from send
            (length send.vals / length send.keys)
            (lower_bound send.keys first)
            m.ranges
            m.server_thread_ids)
unfolding slice
slice-slice_from m send first last others e h = ground arith

-- A request of sorted keys within contiguous ranges, with as many values for each key, is cut into parts that hold its keys and its values in their order,
-- and each part goes to the server thread whose range holds all its keys.
pub slice_partitions :
    ⦃p : Platform⦄ (m : SimpleRangePartitionManager) (send : KvPairs ℕ) (ratio : ℕ)
    → Servable m send ratio
    → (parts : SlicedKvs) × (slice m send ≡ some parts)
      × (all_keys parts ≡ send.keys)
      × (all_vals parts ≡ send.vals)
      × All (Placed m.ranges m.server_thread_ids) parts
slice_partitions m send ratio v =
    let r : Ready send 0 v.first m.ranges m.server_thread_ids = record {
      same_length = v.same_length;
      contiguous = v.contiguous;
      sorted = v.sorted;
      in_bounds = omega arith;
      above = v.above;
      below = v.below;
    } in
    let begins = lower_bound_none v.first send.keys v.above in
    let same_ratio : length send.vals / length send.keys ≡ ratio =
      rw v.even (mul_div_cancel (length send.keys) ratio v.has_key) in
    let no_offset : 0 * ratio ≡ 0 = omega arith in
    (
      slice_from send ratio 0 m.ranges m.server_thread_ids,
      slice-slice_from m send v.first v.last v.others v.has_range v.has_key
          ∙ ap₂ (λ i j. some (slice_from send i j m.ranges m.server_thread_ids)) same_ratio begins,
      all_keys-slice_from send ratio 0 v.first m.ranges m.server_thread_ids r,
      all_vals-slice_from send ratio 0 v.first m.ranges m.server_thread_ids r v.even
          ∙ ap (λ i. drop i send.vals) no_offset,
      slice_from-Placed send ratio 0 v.first m.ranges m.server_thread_ids r,
    )

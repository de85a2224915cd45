-- ===== src/Comm/Barrier/Receive.antt =====
-- The receiving thread keeps the invariant of the barriers.
use flexps.Base.{
  ℕ, ◌+◌, ◌≤◌, ◌<◌, ◌≡◌, refl, sym, ap, subst, ◌∙◌, List, ◌∷◌, some, true, false, ltb, ◌==◌, update,
  count, count-ext, count_one_more, arith, Bool-cases, inl, inr, ==_refl,
}
use flexps.Comm.Mailbox.{BarrierState, on_barrier}
use flexps.Comm.Barrier.{System, update2}
use flexps.Comm.Barrier.Invariant.{passed, Inv, sent_to-entered, entered_le, head_seen}

-- How a message that is taken moves the counts of its receiver.
record Counted (n : ℕ) (b b' : BarrierState) (seen : ℕ → ℕ) (s : ℕ) : Type 0 where
  same_progress : b'.progress ≡ b.progress
  this : b'.this_count ≡ count n (passed b.progress (update seen s (seen s + 1)))
  next : b'.next_count ≡ count n (passed (b.progress + 1) (update seen s (seen s + 1)))

-- A test that one more message of `s` does not change.
count_same :
    (n k s : ℕ) (seen : ℕ → ℕ)
    → ltb k (seen s) ≡ ltb k (seen s + 1)
    → count n (passed k (update seen s (seen s + 1))) ≡ count n (passed k seen)
count_same n k s seen e = count-ext n _ _ (λ i l. elim (Bool-cases (i == s)) [
  | inl at_s ↦ let same : i ≡ s = ground arith in rw (same, ==_refl s) (sym e)
  | inr other ↦ rw other refl
])

-- A test that the message of `s` is the first to pass.
count_more :
    (n k s : ℕ) (seen : ℕ → ℕ)
    → s < n
    → seen s ≡ k
    → count n (passed k (update seen s (seen s + 1))) ≡ count n (passed k seen) + 1
count_more n k s seen l e =
    count_one_more n s (passed k seen) (passed k (update seen s (seen s + 1))) l (ground arith)
      (ground (arith, ==_refl s)) (λ j other. rw other refl)

on_barrier-Counted :
    (n s : ℕ) (b b' : BarrierState) (seen : ℕ → ℕ)
    → s < n
    → b.this_count ≡ count n (passed b.progress seen)
    → b.next_count ≡ count n (passed (b.progress + 1) seen)
    → b.progress ≤ seen s
    → seen s < b.progress + 2
    → on_barrier n (seen s) b ≡ some b'
    → Counted n b b' seen s
unfolding on_barrier
on_barrier-Counted n s b b' seen l this next lo hi e = elim (Bool-cases (seen s == b.progress)) [
  | inl first ↦
      let at_k : seen s ≡ b.progress = ground arith in
      record {
        same_progress = ground arith;
        this = ground (arith, this, count_more n b.progress s seen l at_k);
        next = ground (arith, next, count_same n (b.progress + 1) s seen (ground arith));
      }
  | inr second ↦
      let at_k : seen s ≡ b.progress + 1 = ground arith in
      record {
        same_progress = ground arith;
        this = ground (arith, this, count_same n b.progress s seen (ground arith));
        next = ground (arith, next, count_more n (b.progress + 1) s seen l at_k);
      }
]

pub update-eq {ℓ} :
    {A : Type ℓ} (f : ℕ → A) (i j : ℕ) (a : A) → (j == i) ≡ true → update f i a j ≡ a
update-eq f i j a e = rw e refl

pub Inv-receive :
    {n : ℕ} {x : System} (s r w : ℕ) (rest : List ℕ) (b : BarrierState)
    → s < n
    → r < n
    → x.net s r ≡ w ∷ rest
    → on_barrier n w (x.local r) ≡ some b
    → Inv n x
    → Inv n (record x { local = update x.local r b; net = update2 x.net s r rest })
Inv-receive {n} {x} s r w rest b ls lr e eb v =
    let (ew, flow, left) = head_seen v s r w rest ls lr e in
    let seen' : ℕ → ℕ → ℕ = update2 v.seen s r (v.seen s r + 1) in
    let bound : v.seen s r < (x.local r).progress + 2 = omega (
      arith,
      left,
      sent_to-entered (x.pc s) r (x.local s).progress,
      entered_le (x.pc s) (x.local s).progress,
      v.near s r ls lr,
      entered_le (x.pc r) (x.local r).progress,
    ) in
    let c : Counted n (x.local r) b (λ i. v.seen i r) s =
      on_barrier-Counted n s (x.local r) b (λ i. v.seen i r) ls (v.this r lr) (v.next r lr)
        (v.low s r ls lr) bound (subst (λ i. on_barrier n i (x.local r) ≡ some b) ew eb) in
    let progress_kept : (i : ℕ) → (update x.local r b i).progress ≡ (x.local i).progress = λ i.
      elim (Bool-cases (i == r)) [
        | inl at_r ↦ let same : i ≡ r = ground arith in rw (same, ==_refl r) c.same_progress
        | inr other ↦ rw other refl
      ] in
    let column : (i : ℕ) → seen' i r ≡ update (λ k. v.seen k r) s (v.seen s r + 1) i = λ i.
      elim (Bool-cases (i == s)) [
        | inl at_s ↦ rw (at_s, ==_refl r) refl
        | inr other ↦ rw other refl
      ] in
    let other_column : (k i : ℕ) → (i == r) ≡ false → seen' k i ≡ v.seen k i = λ k i other.
      elim (Bool-cases (k == s)) [
        | inl at_s ↦ rw (at_s, other) refl
        | inr elsewhere ↦ rw elsewhere refl
      ] in
    let This : ℕ → BarrierState → Type 0 =
      λ k z. z.this_count ≡ count n (passed z.progress (λ i. seen' i k)) in
    let Next : ℕ → BarrierState → Type 0 =
      λ k z. z.next_count ≡ count n (passed (z.progress + 1) (λ i. seen' i k)) in
    let this_r : This r b =
      subst (λ k. b.this_count ≡ count n (passed k (λ i. seen' i r))) (sym c.same_progress)
        (c.this ∙ count-ext n _ _ (λ k _. ap (ltb (x.local r).progress) (sym (column k)))) in
    let next_r : Next r b =
      subst (λ k. b.next_count ≡ count n (passed (k + 1) (λ i. seen' i r))) (sym c.same_progress)
        (c.next ∙ count-ext n _ _ (λ k _. ap (ltb ((x.local r).progress + 1)) (sym (column k)))) in
    record {
      seen = seen';
      order = λ s' r' l l'. elim (Bool-cases (s' == s)) [
        | inl at_s ↦ elim (Bool-cases (r' == r)) [
          | inl at_r ↦ rw (at_s, at_r) flow
          | inr other ↦ rw (at_s, other) (v.order s' r' l l')
        ]
        | inr other ↦ rw other (v.order s' r' l l')
      ];
      total = λ s' r' l l'. rw (progress_kept s') (elim (Bool-cases (s' == s)) [
        | inl at_s ↦ elim (Bool-cases (r' == r)) [
          | inl at_r ↦
              let es : s' ≡ s = ground arith in
              let er : r' ≡ r = ground arith in rw (es, er, ==_refl s, ==_refl r) left
          | inr other ↦ rw (at_s, other) (v.total s' r' l l')
        ]
        | inr other ↦ rw other (v.total s' r' l l')
      ]);
      low = λ s' r' l l'. rw (progress_kept r') (elim (Bool-cases (s' == s)) [
        | inl at_s ↦ elim (Bool-cases (r' == r)) [
          | inl at_r ↦
              let es : s' ≡ s = ground arith in
              let er : r' ≡ r = ground arith in
              rw (es, er, ==_refl s, ==_refl r) (omega (arith, v.low s r ls lr))
          | inr other ↦ rw (at_s, other) (v.low s' r' l l')
        ]
        | inr other ↦ rw other (v.low s' r' l l')
      ]);
      this = λ i l. elim (Bool-cases (i == r)) [
        | inl at_r ↦
            let same : i ≡ r = ground arith in
            let local_i : update x.local r b i ≡ b = rw at_r refl in
            subst (This i) (sym local_i) (subst (λ k. This k b) (sym same) this_r)
        | inr other ↦
            let local_i : update x.local r b i ≡ x.local i = rw other refl in
            subst (This i) (sym local_i) (
              v.this i l
              ∙ count-ext n _ _
                  (λ k _. ap (ltb (x.local i).progress) (sym (other_column k i other))))
      ];
      next = λ i l. elim (Bool-cases (i == r)) [
        | inl at_r ↦
            let same : i ≡ r = ground arith in
            let local_i : update x.local r b i ≡ b = rw at_r refl in
            subst (Next i) (sym local_i) (subst (λ k. Next k b) (sym same) next_r)
        | inr other ↦
            let local_i : update x.local r b i ≡ x.local i = rw other refl in
            subst (Next i) (sym local_i) (
              v.next i l
              ∙ count-ext n _ _
                  (λ k _. ap (ltb ((x.local i).progress + 1)) (sym (other_column k i other))))
      ];
      near = λ i j l l'. rw (progress_kept i, progress_kept j) (v.near i j l l');
    }

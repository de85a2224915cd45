-- ===== src/Comm/Barrier/Steps.antt =====
-- Every step of the barriers keeps the invariant.
use flexps.Base.{
  ℕ, ◌+◌, ◌≤◌, ◌<◌, ◌≡◌, refl, sym, ◌∙◌, [], ◌∷◌, ◌++◌, true, ltb, ◌==◌, update, count_all,
  count_none, length-append, arith, Bool-cases, inl, inr, ==_refl,
}
use flexps.Comm.Mailbox.{barrier_done, leave_barrier}
use flexps.Comm.Barrier.{
  Pc, idle, sending, waiting, System, update2, Step, start, Reach, entered, has_sent, sent_to,
}
use flexps.Comm.Barrier.Invariant.{From-append, passed, Inv, sent_to-entered, seen_le}
use flexps.Comm.Barrier.Receive.{Inv-receive}

-- A step of the calling thread that sends nothing and leaves no barrier.
Inv-pc :
    {n : ℕ} {x : System} (i : ℕ) (q : Pc)
    → Inv n x
    → ((r : ℕ) → r < n → has_sent q r ≡ has_sent (x.pc i) r)
    → entered (x.pc i) (x.local i).progress ≤ entered q (x.local i).progress
    → Inv n (record x { pc = update x.pc i q })
Inv-pc {n} {x} i q v same up = record {
  seen = v.seen;
  order = v.order;
  total = λ s r ls lr. elim (Bool-cases (s == i)) [
    | inl at_i ↦ let e : s ≡ i = ground arith in ground (arith, v.total s r ls lr, same r lr, e)
    | inr other ↦ ground (arith, v.total s r ls lr)
  ];
  low = v.low;
  this = v.this;
  next = v.next;
  near = λ k j lk lj. elim (Bool-cases (j == i)) [
    | inl at_i ↦ let e : j ≡ i = ground arith in ground (arith, v.near k j lk lj, up, e)
    | inr other ↦ ground (arith, v.near k j lk lj)
  ];
}

Inv-send :
    {n : ℕ} {x : System} (i j : ℕ)
    → i < n
    → j < n
    → x.pc i ≡ sending j
    → Inv n x
    → Inv n (record x {
      pc = update x.pc i (sending (j + 1));
      net = update2 x.net i j (x.net i j ++ (x.local i).progress ∷ []);
    })
Inv-send {n} {x} i j li lj e v =
    let added = From-append (v.seen i j) (x.local i).progress (x.net i j) (v.order i j li lj) in
    let before : sent_to (x.pc i) j (x.local i).progress ≡ (x.local i).progress =
      rw e (ground arith) in
    let longer = length-append (x.net i j) ((x.local i).progress ∷ []) in
    record {
      seen = v.seen;
      order = λ s r ls lr. elim (Bool-cases (s == i)) [
        | inl at_i ↦ elim (Bool-cases (r == j)) [
          | inl at_j ↦
              let es : s ≡ i = ground arith in
              let er : r ≡ j = ground arith in
              rw (es, er, ==_refl i, ==_refl j) (added (omega (arith, v.total i j li lj, before)))
          | inr other ↦ rw (at_i, other) (v.order s r ls lr)
        ]
        | inr other ↦ rw other (v.order s r ls lr)
      ];
      total = λ s r ls lr. elim (Bool-cases (s == i)) [
        | inl at_i ↦ elim (Bool-cases (r == j)) [
          | inl at_j ↦
              let es : s ≡ i = ground arith in
              let er : r ≡ j = ground arith in
              rw (es, er, ==_refl i, ==_refl j) (ground (arith, v.total i j li lj, before, longer))
          | inr other ↦
              let es : s ≡ i = ground arith in
              let old : has_sent (x.pc i) r ≡ ltb r j = rw e refl in
              ground (arith, v.total s r ls lr, old, es)
        ]
        | inr other ↦ ground (arith, v.total s r ls lr)
      ];
      low = v.low;
      this = v.this;
      next = v.next;
      near = λ k l lk ll. elim (Bool-cases (l == i)) [
        | inl at_i ↦
            let el : l ≡ i = ground arith in
            let old : entered (x.pc i) (x.local i).progress ≡ (x.local i).progress + 1 =
              rw e refl in
            ground (arith, v.near k l lk ll, old, el)
        | inr other ↦ ground (arith, v.near k l lk ll)
      ];
    }

Inv-leave :
    {n : ℕ} {x : System} (i : ℕ)
    → i < n
    → x.pc i ≡ waiting
    → barrier_done n (x.local i) ≡ true
    → Inv n x
    → Inv n
        (record x { local = update x.local i (leave_barrier (x.local i)); pc = update x.pc i idle })
Inv-leave {n} {x} i li e done v =
    let p = (x.local i).progress in
    let all : (s : ℕ) → s < n → p < v.seen s i = λ s ls.
      ground
        (arith, count_all n s (passed p (λ k. v.seen k i)) (sym (v.this i li) ∙ ground arith) ls) in
    let gone : (s : ℕ) → s < n → p + 1 ≤ entered (x.pc s) (x.local s).progress = λ s ls.
      omega (arith, all s ls, v.total s i ls li, sent_to-entered (x.pc s) i (x.local s).progress) in
    record {
      seen = v.seen;
      order = v.order;
      total = λ s r ls lr. elim (Bool-cases (s == i)) [
        | inl at_i ↦
            let same : s ≡ i = ground arith in
            let old : has_sent (x.pc i) r ≡ true = rw e refl in
            ground (arith, v.total s r ls lr, same, old)
        | inr other ↦ rw other (v.total s r ls lr)
      ];
      low = λ s r ls lr. elim (Bool-cases (r == i)) [
        | inl at_i ↦
            let same : r ≡ i = ground arith in rw (same, ==_refl i) (omega (arith, all s ls))
        | inr other ↦ rw other (v.low s r ls lr)
      ];
      this = λ r lr. elim (Bool-cases (r == i)) [
        | inl at_i ↦ let same : r ≡ i = ground arith in rw (same, ==_refl i) (v.next i li)
        | inr other ↦ rw other (v.this r lr)
      ];
      next = λ r lr. elim (Bool-cases (r == i)) [
        | inl at_i ↦
            let same : r ≡ i = ground arith in
            rw (same, ==_refl i)
              (sym (count_none n _ (λ s ls. ground (arith, seen_le v s i ls li))))
        | inr other ↦ rw other (v.next r lr)
      ];
      near = λ k j lk lj. elim (Bool-cases (k == i)) [
        | inl at_i ↦ elim (Bool-cases (j == i)) [
          | inl also ↦ rw (at_i, also) (omega arith)
          | inr other ↦ rw (at_i, other) (gone j lj)
        ]
        | inr elsewhere ↦ elim (Bool-cases (j == i)) [
          | inl at_i ↦
              let same : j ≡ i = ground arith in
              let old : entered (x.pc i) p ≡ p + 1 = rw e refl in
              rw (elsewhere, same, ==_refl i) (ground (arith, v.near k i lk li, old))
          | inr other ↦ rw (elsewhere, other) (v.near k j lk lj)
        ]
      ];
    }

-- Every step keeps the invariant.
pub Step-Inv : {n : ℕ} {x y : System} → Step n x y → Inv n x → Inv n y
Step-Inv {x} (Step.enter i l e) v =
    Inv-pc i (sending 0) v (λ r lr. rw e (ground arith)) (rw e (omega arith))
Step-Inv {x} (Step.send i j l l' e) v = Inv-send i j l l' e v
Step-Inv {n} {x} (Step.sent i l e) v =
    Inv-pc i waiting v (λ r lr. rw e (ground (arith, lr))) (rw e (omega arith))
Step-Inv (Step.receive s r w rest b ls lr e eb) v = Inv-receive s r w rest b ls lr e eb v
Step-Inv (Step.leave i l e done) v = Inv-leave i l e done v

Inv-start : (n : ℕ) → Inv n start
Inv-start n = record {
  seen = λ _ _. 0;
  order = λ s r ls lr. tt;
  total = λ s r ls lr. refl;
  low = λ s r ls lr. omega arith;
  this = λ r lr. sym (count_none n _ (λ s ls. refl));
  next = λ r lr. sym (count_none n _ (λ s ls. refl));
  near = λ i j li lj. omega arith;
}

pub Reach-Inv : {n : ℕ} {x : System} → Reach n x → Inv n x
Reach-Inv {n} Reach.here = Inv-start n
Reach-Inv (Reach.later h st) = Step-Inv st (Reach-Inv h)

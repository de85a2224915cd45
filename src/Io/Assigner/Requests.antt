-- ===== src/Io/Assigner/Requests.antt =====
-- The answers to some requests for blocks: no block twice, and what they take away.
use flexps.Base.{
  ℕ, ◌≡◌, refl, sym, ◌∙◌, ap, List, [], ◌∷◌, Option, none, some, Bool, true, false, ◌==◌, ◌&&◌,
  if◌then◌else◌, arith, Bool-cases, inl, inr,
}
use flexps.Io.Assigner.{Locality, has_block, touch}
use flexps.Io.Assigner.Erase.{Stored, holds, find_or-touch}

-- Whether a block is among the answers.
abbrev pub given : ℕ → ℕ → List (Option (ℕ × ℕ)) → Bool
given f o [] = false
given f o (none ∷ answers) = given f o answers
given f o (some (f', o') ∷ answers) = if (f == f') && (o == o') then true else given f o answers

-- No block is among the answers twice.
abbrev pub NoTwice : List (Option (ℕ × ℕ)) → Type 0
NoTwice [] = Unit
NoTwice (none ∷ answers) = NoTwice answers
NoTwice (some (f, o) ∷ answers) = (given f o answers ≡ false) × NoTwice answers

-- What some answers have taken away.
pub record Taken (before : Locality) (answers : List (Option (ℕ × ℕ))) (last : Locality)
    : Type 0 where
  pub once : NoTwice answers
  pub was_there : (f o : ℕ) → given f o answers ≡ true → (h : ℕ) × (holds h f o before ≡ true)
  pub rest :
      (h f o : ℕ) → holds h f o last ≡ (if given f o answers then false else holds h f o before)
  pub stored : Stored last

pub Taken-none :
    (host : ℕ) (before last : Locality) (answers : List (Option (ℕ × ℕ)))
    → Taken (touch host before) answers last
    → Taken before (none ∷ answers) last
Taken-none host before last answers v = record {
  once = v.once;
  was_there = λ f o e.
      let (h, there) = v.was_there f o e in
      (h, ap (has_block f o) (sym (find_or-touch h host before)) ∙ there);
  rest = λ h f o.
      v.rest h f o
      ∙ ap (λ l. if given f o answers then false else has_block f o l)
          (find_or-touch h host before);
  stored = v.stored;
}

pub Taken-some :
    (f o h : ℕ) (before after last : Locality) (answers : List (Option (ℕ × ℕ)))
    → holds h f o before ≡ true
    → ((h' f' o' : ℕ)
        → holds h' f' o' after ≡ (if (f' == f) && (o' == o) then false else holds h' f' o' before))
    → Taken after answers last
    → Taken before (some (f, o) ∷ answers) last
Taken-some f o h before after last answers there gone v =
    let new : given f o answers ≡ false = elim (Bool-cases (given f o answers)) [
      | inl again ↦
          let (h', held) = v.was_there f o again in absurd (ground (arith, held, gone h' f o))
      | inr new ↦ new
    ] in
    record {
      once = (new, v.once);
      was_there = λ f' o' e. elim (Bool-cases ((f' == f) && (o' == o))) [
        | inl same ↦
            let same_f : f ≡ f' = ground arith in
            let same_o : o ≡ o' = ground arith in
            (
              h,
              ap (λ i. holds h i o' before) (sym same_f)
                  ∙ ap (λ i. holds h f i before) (sym same_o)
                  ∙ there,
            )
        | inr other ↦
            let (h', held) = v.was_there f' o' (ground arith) in
            (h', ground (arith, held, gone h' f' o'))
      ];
      rest = λ h' f' o'. ground (arith, v.rest h' f' o', gone h' f' o');
      stored = v.stored;
    }

-- A refused request, where no host has a block left, takes nothing.
pub Taken-nothing :
    (before last : Locality)
    → ((h f o : ℕ) → holds h f o before ≡ false)
    → ((h f o : ℕ) → holds h f o last ≡ false)
    → Stored last
    → Taken before (none ∷ []) last
Taken-nothing before last empty gone v = record {
  once = tt;
  was_there = λ f o e. absurd (ground arith);
  rest = λ h f o. gone h f o ∙ sym (empty h f o);
  stored = v;
}

-- No answer has been given yet.
pub Taken-start : (before : Locality) → Stored before → Taken before [] before
Taken-start before v = record {
  once = tt;
  was_there = λ f o e. absurd (ground arith);
  rest = λ h f o. refl;
  stored = v;
}

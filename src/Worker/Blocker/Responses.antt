-- ===== src/Worker/Blocker/Responses.antt =====
-- A request is over after its last response, and no earlier.
use flexps.Base.{
  ℕ, zero, suc, ◌+◌, ◌≤◌, ◌<◌, ◌≡◌, refl, ◌∙◌, List, [], ◌∷◌, Option, none, some, false, ◌&&◌,
  find_or, put, length, ◌==◌, if◌then◌else◌, ◌>>=◌, arith, find-put, add_u32, add_u32_exact,
  u32_mod, ne→==, ==_refl, inl, inr, Option-cases,
}
use native.Mathlib.Nat.{add-zero}
use flexps.Message.{Message}
use flexps.Worker.Blocker.{
  AppBlocker, Dict2, find2, put2, tracked, count_response, new_request, wait_request, add_response,
}

pub find2-put2 {ℓ} :
    {V : Type ℓ} (a m a' m' : ℕ) (v : V) (d : Dict2 V)
    → find2 a' m' (put2 a m v d) ≡ (if a' == a && m' == m then some v else find2 a' m' d)
find2-put2 a m a' m' v d =
    ground (arith, find-put a' a (put m v (find_or a [] d)) d, find-put m' m v (find_or a [] d))

-- A write of one counter is seen by its app thread and model, and by no other.
pub tracked-put :
    {C : Type 0} (a m a' m' : ℕ) (v : ℕ × ℕ) (b : AppBlocker C)
    → tracked a' m' (record b { tracker = put2 a m v b.tracker })
      ≡ (if a' == a && m' == m then v else tracked a' m' b)
unfolding tracked
tracked-put a m a' m' v b = ground (arith, find2-put2 a m a' m' v b.tracker)

tracked-put_self :
    {C : Type 0} (a m : ℕ) (v : ℕ × ℕ) (b : AppBlocker C)
    → tracked a m (record b { tracker = put2 a m v b.tracker }) ≡ v
tracked-put_self a m v b = tracked-put a m a m v b ∙ rw (==_refl a, ==_refl m)

-- The app thread `a` has sent a request for the model `m`: `n` responses are expected, and `k` have
-- come.
pub record Awaits {C : Type 0} (a m : ℕ) (h : Message → C → Option C) (f : C → Option C) (n k : ℕ)
    (b : AppBlocker C) : Type 0 where
  pub handled : find2 a m b.recv_handle ≡ some h
  pub finished : find2 a m b.recv_finish_handle ≡ some f
  pub counted : tracked a m b ≡ (n, k)

module _ {C : Type 0} where
  -- The responses of one request, in the order in which the helper thread takes them.
  abbrev pub add_responses : ℕ → ℕ → List Message → AppBlocker C → C → Option (AppBlocker C × C)
  add_responses a m [] b c = some (b, c)
  add_responses a m (msg ∷ msgs) b c = do
    (b', c') ← add_response a m msg b c
    add_responses a m msgs b' c'

  abbrev pub handle_all : (Message → C → Option C) → List Message → C → Option C
  handle_all h [] c = some c
  handle_all h (msg ∷ msgs) c = h msg c >>= handle_all h msgs

  abbrev pair_with : AppBlocker C → C → Option (AppBlocker C × C)
  pair_with b c = some (b, c)

  abbrev unpair : AppBlocker C × C → Option (AppBlocker C × C)
  unpair x = some (x.0, x.1)

  rebind :
      (b : AppBlocker C) (o : Option C) → ((o >>= pair_with b) >>= unpair) ≡ (o >>= pair_with b)
  rebind b none = refl
  rebind b (some c) = refl

  module _ (a m : ℕ) (h : Message → C → Option C) (f : C → Option C) (n : ℕ) where
    pub new_request-Awaits :
        (k : ℕ) (j : ℕ) (b : AppBlocker C)
        → Awaits a m h f j k b
        → (b' : AppBlocker C) × (new_request a m n b ≡ some b') × Awaits a m h f n 0 b'
    unfolding new_request
    new_request-Awaits k j b w = (
      record b { tracker = put2 a m (n, 0) b.tracker },
      rw (w.handled, w.finished),
      record {
        handled = w.handled;
        finished = w.finished;
        counted = tracked-put_self a m (n, 0) b;
      },
    )

    pub wait_request-Awaits :
        (k : ℕ) (b : AppBlocker C) → Awaits a m h f n k b → wait_request a m b ≡ some (n == k)
    unfolding wait_request
    wait_request-Awaits k b w = rw (w.handled, w.finished, w.counted)

    -- The response that makes `suc k` of `n`.
    count_response-Awaits :
        (k : ℕ) (b : AppBlocker C)
        → n < u32_mod
        → k < n
        → Awaits a m h f n k b
        → Awaits a m h f n (suc k) (count_response a m b)
    count_response-Awaits k b fits le w =
        let next : add_u32 k 1 ≡ suc k = ground (arith, add_u32_exact k 1 (omega arith)) in
        record {
          handled = w.handled;
          finished = w.finished;
          counted = rw (w.counted, next) (tracked-put_self a m (n, suc k) b);
        }

    add_response-Awaits :
        (k : ℕ) (msg : Message) (b : AppBlocker C) (c : C)
        → n < u32_mod
        → k < n
        → Awaits a m h f n k b
        → add_response a m msg b c ≡ (
            h msg c >>= λ c'.
            (if n == suc k then f c' else some c') >>= λ c''. some (count_response a m b, c''))
    unfolding add_response
    add_response-Awaits k msg b c fits le w =
        let next : add_u32 k 1 ≡ suc k = ground (arith, add_u32_exact k 1 (omega arith)) in
        rw (w.handled, w.finished, w.counted, next)

    -- The end of the request: after the last response the finish handle has run, once.
    abbrev finish_after : ℕ → C → Option C
    finish_after k c = if n == k then f c else some c

    abbrev count_all : ℕ → AppBlocker C → AppBlocker C
    count_all zero b = b
    count_all (suc j) b = count_all j (count_response a m b)

    count_all-Awaits :
        (j k : ℕ) (b : AppBlocker C)
        → n < u32_mod
        → k + j ≤ n
        → Awaits a m h f n k b
        → Awaits a m h f n (k + j) (count_all j b)
    count_all-Awaits zero k b fits le w = rw add-zero w
    count_all-Awaits (suc j) k b fits le w =
        let e : k + suc j ≡ suc k + j = omega arith in
        rw e (
          count_all-Awaits j (suc k) (count_response a m b) fits (omega (arith, le))
            (count_response-Awaits k b fits (omega (arith, le)) w))

    add_responses_lem :
        (k : ℕ) (msg : Message) (msgs : List Message) (b : AppBlocker C) (c : C)
        → n < u32_mod
        → k + length (msg ∷ msgs) ≤ n
        → Awaits a m h f n k b
        → add_responses a m (msg ∷ msgs) b c ≡ (
            handle_all h (msg ∷ msgs) c >>= finish_after (k + length (msg ∷ msgs)) >>= λ c'.
            some (count_all (length (msg ∷ msgs)) b, c'))
    add_responses_lem k msg [] b c fits le w =
        let first = add_response-Awaits k msg b c fits (omega (arith, le)) w in
        let e : k + 1 ≡ suc k = omega arith in
        elim (Option-cases (h msg c)) [
          | inl aborts ↦ rw (first, aborts)
          | inr (c1, handled) ↦
              rw (first, handled, e)
                (rebind (count_response a m b) (if n == suc k then f c1 else some c1))
        ]
    add_responses_lem k msg (x ∷ msgs) b c fits le w =
        let first = add_response-Awaits k msg b c fits (omega (arith, le)) w in
        let e : k + suc (suc (length msgs)) ≡ suc k + suc (length msgs) = omega arith in
        let early : (n == suc k) ≡ false = ne→== n (suc k) (omega (arith, le)) in
        elim (Option-cases (h msg c)) [
          | inl aborts ↦ rw (first, aborts)
          | inr (c1, handled) ↦
              rw (first, handled, early, e)
                (add_responses_lem (suc k) x msgs (count_response a m b) c1 fits (omega (arith, le))
                  (count_response-Awaits k b fits (omega (arith, le)) w))
        ]

    -- At most as many responses as a request expects, fewer than 2^32, run the receive handle on each,
    -- in order, and the finish handle after the last if it is the last expected one. The wait is over
    -- if and only if it is.
    pub add_responses-Awaits :
        (msg : Message) (msgs : List Message) (b : AppBlocker C) (c : C)
        → n < u32_mod
        → length (msg ∷ msgs) ≤ n
        → Awaits a m h f n 0 b
        → (b' : AppBlocker C) × (add_responses a m (msg ∷ msgs) b c ≡ (
            handle_all h (msg ∷ msgs) c >>= finish_after (length (msg ∷ msgs)) >>= λ c'.
            some (b', c')))
          × (wait_request a m b' ≡ some (n == length (msg ∷ msgs)))
    add_responses-Awaits msg msgs b c fits le w =
        let j = length (msg ∷ msgs) in
        let z : 0 + j ≡ j = omega arith in
        (
          count_all j b,
          (rw z at (add_responses_lem 0 msg msgs b c fits (omega (arith, le)) w)),
          (rw z at (
              wait_request-Awaits (0 + j) (count_all j b)
                (count_all-Awaits j 0 b fits (omega (arith, le)) w))),
        )

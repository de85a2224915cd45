-- ===== src/Serialization/RoundTrip.antt =====
-- What is read back from a stream: values of plain types, strings and pairs.
use flexps.Base.{
  ℕ, ◌+◌, ◌<◌, ◌≤◌, ◌≡◌, refl, sym, ap, subst, ◌∙◌, [], ◌∷◌, ◌++◌, some, true, leb, length,
  length-append, length-drop, drop-drop, append_assoc, take, drop, arith,
}
use flexps.Serialization.{
  Bytes, u64_mod, BinStream, push_back_bytes, pop_front_bytes, Serial, Plain, plain_serial,
  SizeType, string_serial, pair_serial,
}

-- The bytes `rest` are left to be read.
pub record At (s : BinStream) (rest : Bytes) : Type 0 where
  pub within : s.front ≤ length s.buffer
  pub left : drop s.front s.buffer ≡ rest

-- `n` bytes further on.
abbrev pub forward : BinStream → ℕ → BinStream
forward s n = record s { front = s.front + n }

take-append_length : (xs ys : Bytes) → take (length xs) (xs ++ ys) ≡ xs
take-append_length [] ys = refl
take-append_length (x ∷ xs) ys = ap (λ l. x ∷ l) (take-append_length xs ys)

pub drop-append_length : (xs ys : Bytes) → drop (length xs) (xs ++ ys) ≡ ys
drop-append_length [] ys = refl
drop-append_length (x ∷ xs) ys = drop-append_length xs ys

-- There are the bytes that are left.
At-room :
    (s : BinStream) (bytes rest : Bytes)
    → At s (bytes ++ rest)
    → s.front + length bytes ≤ length s.buffer
At-room s bytes rest v =
    omega
      (arith, v.within, length-drop s.front s.buffer, ap length v.left, length-append bytes rest)

pub At-forward :
    (s : BinStream) (bytes rest : Bytes) → At s (bytes ++ rest) → At (forward s (length bytes)) rest
At-forward s bytes rest v = record {
  within = At-room s bytes rest v;
  left =
      sym (drop-drop s.front (length bytes) s.buffer)
      ∙ ap (drop (length bytes)) v.left
      ∙ drop-append_length bytes rest;
}

pub pop_front_bytes-At :
    (s : BinStream) (bytes rest : Bytes)
    → At s (bytes ++ rest)
    → pop_front_bytes (length bytes) s ≡ some (bytes, forward s (length bytes))
unfolding pop_front_bytes
pop_front_bytes-At s bytes rest v =
    let room : leb (s.front + length bytes) (length s.buffer) ≡ true =
      ground (arith, At-room s bytes rest v) in
    rw (room, v.left, take-append_length bytes rest) refl

-- The value is written as the bytes, and the bytes are read back as the value.
pub record Encodes {A : Type 0} (c : Serial A) (a : A) (bytes : Bytes) : Type 0 where
  pub written : (s : BinStream) → c.write a s ≡ record s { buffer = s.buffer ++ bytes }
  pub read_back :
      (s : BinStream) (rest : Bytes)
      → At s (bytes ++ rest)
      → c.read s ≡ some (a, forward s (length bytes))

pub plain_serial-Encodes :
    {A : Type 0} (p : Plain A) (a : A) → p.valid a ≡ true → Encodes (plain_serial p) a (p.bytes a)
unfolding plain_serial push_back_bytes
plain_serial-Encodes p a valid = record {
  written = λ s. refl;
  read_back = λ s rest v.
      rw (sym (p.length-bytes a), pop_front_bytes-At s (p.bytes a) rest v, p.of_bytes-bytes a valid)
        refl;
}

-- Two reads, one after the other.
pub forward-forward :
    (s : BinStream) (xs ys : Bytes)
    → forward (forward s (length xs)) (length ys) ≡ forward s (length (xs ++ ys))
forward-forward s xs ys =
    ap (λ n. record s { front = n }) {x = (s.front + length xs) + length ys}
      (omega (arith, length-append xs ys))

module _ {A B : Type 0} (c : Serial A) (d : Serial B) where
  pub pair_serial-Encodes :
      (a : A) (b : B) (xs ys : Bytes)
      → Encodes c a xs
      → Encodes d b ys
      → Encodes (pair_serial c d) (a, b) (xs ++ ys)
  unfolding pair_serial
  pair_serial-Encodes a b xs ys u v = record {
    written = λ s.
        ap (d.write b) (u.written s)
        ∙ v.written (record s { buffer = s.buffer ++ xs })
        ∙ ap (λ l. record s { buffer = l }) (append_assoc s.buffer xs ys);
    read_back = λ s rest at.
        let at_xs : At s (xs ++ (ys ++ rest)) = subst (At s) (append_assoc xs ys rest) at in
        rw
          (
            u.read_back s (ys ++ rest) at_xs,
            v.read_back (forward s (length xs)) rest (At-forward s xs (ys ++ rest) at_xs),
            forward-forward s xs ys,
          )
          refl;
  }

module _ ⦃z : SizeType⦄ where
  -- The bytes of a `size_t`.
  abbrev pub size_bytes : ℕ → Bytes
  size_bytes n = z.sizes.bytes n

  pub size-Encodes : (n : ℕ) → n < u64_mod → Encodes (plain_serial z.sizes) n (size_bytes n)
  size-Encodes n fits = plain_serial-Encodes z.sizes n (z.sizes_valid n fits)

  pub string_serial-Encodes :
      (x : Bytes) → length x < u64_mod → Encodes string_serial x (size_bytes (length x) ++ x)
  unfolding string_serial push_back_bytes
  string_serial-Encodes x fits =
      let u = size-Encodes (length x) fits in
      record {
        written = λ s.
            ap (push_back_bytes x) (u.written s)
            ∙ ap (λ l. record s { buffer = l }) (append_assoc s.buffer (size_bytes (length x)) x);
        read_back = λ s rest at.
            let at_size : At s (size_bytes (length x) ++ (x ++ rest)) =
              subst (At s) (append_assoc (size_bytes (length x)) x rest) at in
            let s' = forward s (length (size_bytes (length x))) in
            rw
              (
                u.read_back s (x ++ rest) at_size,
                pop_front_bytes-At s' x rest
                    (At-forward s (size_bytes (length x)) (x ++ rest) at_size),
                forward-forward s (size_bytes (length x)) x,
              )
              refl;
      }

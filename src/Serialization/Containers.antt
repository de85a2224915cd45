-- ===== src/Serialization/Containers.antt =====
-- What is read back from a stream: vectors and maps.
use flexps.Base.{
  ℕ, ◌<◌, ◌≡◌, refl, sym, ap, subst, ◌∙◌, List, [], ◌∷◌, ◌++◌, none, some, length, append_assoc,
  append-nil, arith, length-append, drop, Dict, insert, Ascending, Above, find, put,
}
use flexps.Serialization.{
  Bytes, u64_mod, BinStream, Serial, SizeType, write_each, read_each, vector_serial, read_entries,
  map_serial,
}
use flexps.Serialization.RoundTrip.{
  At, forward, drop-append_length, At-forward, forward-forward, Encodes, size_bytes, size-Encodes,
}

-- The bytes of the elements, one after the other.
abbrev pub concat : List Bytes → Bytes
concat [] = []
concat (xs ∷ all) = xs ++ concat all

module _ {A : Type 0} (c : Serial A) where
  -- Each element is encoded by its bytes.
  abbrev pub AllEncode : List A → List Bytes → Type 0
  AllEncode [] [] = Unit
  AllEncode (a ∷ v) (xs ∷ all) = Encodes c a xs × AllEncode v all
  AllEncode _ _ = ⊥

  module _ ⦃z : SizeType⦄ where
    write_each_lem :
        (v : List A) (all : List Bytes) (s : BinStream)
        → AllEncode v all
        → write_each c v s ≡ record s { buffer = s.buffer ++ concat all }
    unfolding write_each
    write_each_lem [] [] s u = ap (λ l. record s { buffer = l }) (sym (append-nil s.buffer))
    write_each_lem [] (xs ∷ all) s u = absurd u
    write_each_lem (a ∷ v) [] s u = absurd u
    write_each_lem (a ∷ v) (xs ∷ all) s u =
        ap (write_each c v) (u.0.written s)
        ∙ write_each_lem v all (record s { buffer = s.buffer ++ xs }) u.1
        ∙ ap (λ l. record s { buffer = l }) (append_assoc s.buffer xs (concat all))

    read_each_lem :
        (v : List A) (all : List Bytes) (s : BinStream) (rest : Bytes)
        → AllEncode v all
        → At s (concat all ++ rest)
        → read_each c (length v) s ≡ some (v, forward s (length (concat all)))
    unfolding read_each
    read_each_lem [] [] s rest u at =
        ap (λ n. some ([], record s { front = n })) {x = s.front} (omega arith)
    read_each_lem [] (xs ∷ all) s rest u at = absurd u
    read_each_lem (a ∷ v) [] s rest u at = absurd u
    read_each_lem (a ∷ v) (xs ∷ all) s rest u at =
        let at_xs : At s (xs ++ (concat all ++ rest)) =
          subst (At s) (append_assoc xs (concat all) rest) at in
        rw
          (
            u.0.read_back s (concat all ++ rest) at_xs,
            read_each_lem v all (forward s (length xs)) rest u.1
                (At-forward s xs (concat all ++ rest) at_xs),
            forward-forward s xs (concat all),
          )
          refl

    -- A vector whose elements are encoded by their bytes is written as its length and those bytes, and
    -- is read back from them, whatever follows.
    pub vector_serial-Encodes :
        (v : List A) (all : List Bytes)
        → length v < u64_mod
        → AllEncode v all
        → Encodes (vector_serial c) v (size_bytes (length v) ++ concat all)
    unfolding vector_serial
    vector_serial-Encodes v all fits u =
        let n = size_bytes (length v) in
        let w = size-Encodes (length v) fits in
        record {
          written = λ s.
              ap (write_each c v) (w.written s)
              ∙ write_each_lem v all (record s { buffer = s.buffer ++ n }) u
              ∙ ap (λ l. record s { buffer = l }) (append_assoc s.buffer n (concat all));
          read_back = λ s rest at.
              let at_n : At s (n ++ (concat all ++ rest)) =
                subst (At s) (append_assoc n (concat all) rest) at in
              rw
                (
                  w.read_back s (concat all ++ rest) at_n,
                  read_each_lem v all (forward s (length n)) rest u
                      (At-forward s n (concat all ++ rest) at_n),
                  forward-forward s n (concat all),
                )
                refl;
        }

module _ {V : Type 0} where
  Above-last : (j k : ℕ) (w : V) (m rest : Dict V) → Above j (m ++ ((k, w) ∷ rest)) → j < k
  Above-last j k w [] rest a = a.0
  Above-last j k w (x ∷ m) rest a = Above-last j k w m rest a.1

  find_last : (k : ℕ) (w : V) (m rest : Dict V) → Ascending (m ++ ((k, w) ∷ rest)) → find k m ≡ none
  find_last k w [] rest a = refl
  find_last k w ((j, x) ∷ m) rest a =
      ground (arith, Above-last j k w m rest a.0, find_last k w m rest a.1)

  put_last :
      (k : ℕ) (w : V) (m rest : Dict V)
      → Ascending (m ++ ((k, w) ∷ rest))
      → put k w m ≡ m ++ ((k, w) ∷ [])
  put_last k w [] rest a = refl
  put_last k w ((j, x) ∷ m) rest a =
      ground (arith, Above-last j k w m rest a.0, put_last k w m rest a.1)

  -- A key above all others is inserted at the end.
  insert_last :
      (k : ℕ) (w : V) (m rest : Dict V)
      → Ascending (m ++ ((k, w) ∷ rest))
      → insert k w m ≡ m ++ ((k, w) ∷ [])
  insert_last k w m rest a = rw (insert, find_last k w m rest a) (put_last k w m rest a)

  module _ (c : Serial (ℕ × V)) ⦃z : SizeType⦄ where
    read_entries_lem :
        (v : Dict V) (all : List Bytes) (s : BinStream) (rest : Bytes) (m : Dict V)
        → AllEncode c v all
        → At s (concat all ++ rest)
        → Ascending (m ++ v)
        → read_entries c (length v) s m ≡ some (m ++ v, forward s (length (concat all)))
    unfolding read_entries
    read_entries_lem [] [] s rest m u at asc =
        rw (append-nil m) (ap (λ n. some (m, record s { front = n })) {x = s.front} (omega arith))
    read_entries_lem [] (xs ∷ all) s rest m u at asc = absurd u
    read_entries_lem (e ∷ v) [] s rest m u at asc = absurd u
    read_entries_lem ((k, w) ∷ v) (xs ∷ all) s rest m u at asc =
        let at_xs : At s (xs ++ (concat all ++ rest)) =
          subst (At s) (append_assoc xs (concat all) rest) at in
        let regroup = append_assoc m ((k, w) ∷ []) v in
        let inner =
          read_entries_lem v all (forward s (length xs)) rest (m ++ ((k, w) ∷ [])) u.1
            (At-forward s xs (concat all ++ rest) at_xs) (subst Ascending (sym regroup) asc) in
        rw
          (
            u.0.read_back s (concat all ++ rest) at_xs,
            insert_last k w m v asc,
            inner,
            regroup,
            forward-forward s xs (concat all),
          )
          refl

    -- A map of number keys whose entries are encoded by their bytes is written as its size and those
    -- bytes, and is read back from them, whatever follows.
    pub map_serial-Encodes :
        (m : Dict V) (all : List Bytes)
        → length m < u64_mod
        → Ascending m
        → AllEncode c m all
        → Encodes (map_serial c) m (size_bytes (length m) ++ concat all)
    unfolding map_serial
    map_serial-Encodes m all fits asc u =
        let n = size_bytes (length m) in
        let w = size-Encodes (length m) fits in
        record {
          written = λ s.
              ap (write_each c m) (w.written s)
              ∙ write_each_lem c m all (record s { buffer = s.buffer ++ n }) u
              ∙ ap (λ l. record s { buffer = l }) (append_assoc s.buffer n (concat all));
          read_back = λ s rest at.
              let at_n : At s (n ++ (concat all ++ rest)) =
                subst (At s) (append_assoc n (concat all) rest) at in
              rw
                (
                  w.read_back s (concat all ++ rest) at_n,
                  read_entries_lem m all (forward s (length n)) rest [] u
                      (At-forward s n (concat all ++ rest) at_n) asc,
                  forward-forward s n (concat all),
                )
                refl;
        }

-- A value that was written at the end of a stream is read back when all before it has been read, and
-- then nothing is left.
pub read-write :
    {A : Type 0} (c : Serial A) (a : A) (bytes : Bytes) (s : BinStream)
    → Encodes c a bytes
    → s.front ≡ length s.buffer
    → (c.read (c.write a s) ≡ some (a, forward (c.write a s) (length bytes)))
      × At (forward (c.write a s) (length bytes)) []
read-write c a bytes s u done =
    let t : BinStream = record s { buffer = s.buffer ++ bytes } in
    let at_t : At t (bytes ++ []) = record {
      within = omega (arith, done, length-append s.buffer bytes);
      left =
          ap (λ n. drop n (s.buffer ++ bytes)) done
          ∙ drop-append_length s.buffer bytes
          ∙ sym (append-nil bytes);
    } in
    let at = subst (λ x. At x (bytes ++ [])) (sym (u.written s)) at_t in
    (u.read_back (c.write a s) [] at, At-forward (c.write a s) bytes [] at)

-- ===== src/Serialization.antt =====
-- base/serialization.hpp and .cpp: values as bytes in a stream. The representation of a type that is
-- copied as it stands in memory, and of `size_t`, is the machine's, and a parameter. `none` is a failed
-- assertion or a read past the end. The loops count in an `int`, so a container is below 2^31.
pub mod RoundTrip
pub mod Containers
use flexps.Base.{
  ℕ, zero, suc, ◌+◌, ◌-◌, ◌%◌, ◌<◌, ◌≤◌, ◌≡◌, List, [], ◌∷◌, ◌++◌, Option, none, some, Bool, true,
  false, leb, ltb, if◌then◌else◌, ◌>>=◌, ◌>>◌, check, length, take, drop, replicate, Dict, insert,
}

abbrev pub Bytes : Type 0
Bytes = List ℕ

abbrev pub u64_mod : ℕ
u64_mod = 18446744073709551616

pub record BinStream : Type 0 where
  pub buffer : Bytes
  pub front : ℕ

abbrev pub empty : BinStream
empty = record { buffer = []; front = 0 }

-- `size()`, which wraps where the front is past the end.
abbrev pub size : BinStream → ℕ
size s = (length s.buffer + u64_mod - s.front) % u64_mod

abbrev pub clear : BinStream → BinStream
clear s = record { buffer = []; front = 0 }

abbrev pub resize : ℕ → BinStream → BinStream
resize n s = record { buffer = take n s.buffer ++ replicate (n - length s.buffer) 0; front = 0 }

abbrev pub seek : ℕ → BinStream → BinStream
seek pos s = record s { front = pos }

unfoldable pub push_back_bytes : Bytes → BinStream → BinStream
push_back_bytes src s = record s { buffer = s.buffer ++ src }

-- The bytes are read from the pointer that the method answers.
unfoldable pub pop_front_bytes : ℕ → BinStream → Option (Bytes × BinStream)
pop_front_bytes sz s = do
  check (leb (s.front + sz) (length s.buffer))
  some (take sz (drop s.front s.buffer), record s { front = s.front + sz })

-- What is left to be read.
abbrev pub to_string : BinStream → Bytes
to_string s = drop s.front s.buffer

unfoldable pub append : BinStream → BinStream → BinStream
unfolding push_back_bytes
append stream s = push_back_bytes (to_string stream) s

-- The operators `<<` and `>>` of a type.
pub record Serial (A : Type 0) : Type 0 where
  pub write : A → BinStream → BinStream
  pub read : BinStream → Option (A × BinStream)

-- A type that is copied as it stands in memory.
pub record Plain (A : Type 0) : Type 0 where
  pub width : ℕ
  pub bytes : A → Bytes
  pub of_bytes : Bytes → A
  pub valid : A → Bool
  pub length-bytes : (a : A) → length (bytes a) ≡ width
  pub of_bytes-bytes : (a : A) → valid a ≡ true → of_bytes (bytes a) ≡ a

unfoldable pub plain_serial : {A : Type 0} → Plain A → Serial A
unfolding push_back_bytes pop_front_bytes
plain_serial p = record {
  write = λ a s. push_back_bytes (p.bytes a) s;
  read = λ s. (do (bytes, s') ← pop_front_bytes p.width s; some (p.of_bytes bytes, s'));
}

module _ {A B : Type 0} (c : Serial A) (d : Serial B) where
  -- `std::pair<A, B>`
  unfoldable pub pair_serial : Serial (A × B)
  pair_serial = record {
    write = λ x s. d.write x.1 (c.write x.0 s);
    read = λ s. (do (a, s') ← c.read s; (b, s'') ← d.read s'; some ((a, b), s''));
  }

-- `size_t` on this machine.
pub record SizeType : Type 0 where
  pub sizes : Plain ℕ
  pub sizes_valid : (n : ℕ) → n < u64_mod → sizes.valid n ≡ true

module _ ⦃z : SizeType⦄ where
  -- `stream << len` of a `size_t`.
  abbrev pub write_size : ℕ → BinStream → BinStream
  write_size n s = (plain_serial z.sizes).write n s

  abbrev pub read_size : BinStream → Option (ℕ × BinStream)
  read_size s = (plain_serial z.sizes).read s

  module _ {A : Type 0} (c : Serial A) where
    -- The loops over the elements.
    unfoldable pub write_each : List A → BinStream → BinStream
    write_each [] s = s
    write_each (a ∷ v) s = write_each v (c.write a s)

    unfoldable pub read_each : ℕ → BinStream → Option (List A × BinStream)
    read_each zero s = some ([], s)
    read_each (suc n) s = do (a, s') ← c.read s; (v, s'') ← read_each n s'; some (a ∷ v, s'')

    -- `std::vector<A>`
    unfoldable pub vector_serial : Serial (List A)
    unfolding write_each read_each
    vector_serial = record {
      write = λ v s. write_each v (write_size (length v) s);
      read = λ s. (do (len, s') ← read_size s; read_each len s');
    }

  -- `std::string`
  unfoldable pub string_serial : Serial Bytes
  unfolding push_back_bytes pop_front_bytes
  string_serial = record {
    write = λ x s. push_back_bytes x (write_size (length x) s);
    read = λ s. (do (len, s') ← read_size s; pop_front_bytes len s');
  }

  module _ {V : Type 0} (c : Serial (ℕ × V)) where
    -- The loop that reads a map.
    unfoldable pub read_entries : ℕ → BinStream → Dict V → Option (Dict V × BinStream)
    read_entries zero s m = some (m, s)
    read_entries (suc n) s m = do ((k, v), s') ← c.read s; read_entries n s' (insert k v m)

    -- `std::map<K, V>` of number keys, as its entries in their order.
    unfoldable pub map_serial : Serial (Dict V)
    unfolding write_each read_entries
    map_serial = record {
      write = λ m s. write_each c m (write_size (length m) s);
      read = λ s. (do (len, s') ← read_size s; read_entries len s' []);
    }

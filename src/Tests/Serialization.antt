-- ===== src/Tests/Serialization.antt =====
-- A map from numbers to numbers and a vector of numbers, in a stream of bytes.
use flexps.Base.{ℕ, ◌≡◌, refl, [], ◌∷◌, arith, true, ltb}
use flexps.Serialization.{
  Bytes, Plain, SizeType, u64_mod, plain_serial, pair_serial, vector_serial, map_serial,
}
use flexps.Serialization.RoundTrip.{Encodes, plain_serial-Encodes, pair_serial-Encodes}
use flexps.Serialization.Containers.{vector_serial-Encodes, map_serial-Encodes}

-- A machine whose numbers are one byte wide, of any value.
abbrev byte : Plain ℕ
byte = record {
  width = 1;
  bytes = λ n. n ∷ [];
  of_bytes = first;
  valid = λ n. ltb n u64_mod;
  length-bytes = λ n. refl;
  of_bytes-bytes = λ n e. refl;
}
  where
    first : Bytes → ℕ
    first [] = 0
    first (b ∷ bs) = b

instance abbrev one_byte : SizeType
one_byte = record { sizes = byte; sizes_valid = λ n h. ground (arith, h) }

vector_serial-Encodes_example :
    Encodes (vector_serial (plain_serial byte)) (7 ∷ 9 ∷ []) (2 ∷ 7 ∷ 9 ∷ [])
vector_serial-Encodes_example =
    vector_serial-Encodes (plain_serial byte) (7 ∷ 9 ∷ []) ((7 ∷ []) ∷ (9 ∷ []) ∷ []) (omega arith)
      (plain_serial-Encodes byte 7 refl, (plain_serial-Encodes byte 9 refl, tt))

map_serial-Encodes_example :
    Encodes
      (map_serial (pair_serial (plain_serial byte) (plain_serial byte)))
      ((3, 30) ∷ (5, 50) ∷ [])
      (2 ∷ 3 ∷ 30 ∷ 5 ∷ 50 ∷ [])
map_serial-Encodes_example =
    map_serial-Encodes (pair_serial (plain_serial byte) (plain_serial byte))
      ((3, 30) ∷ (5, 50) ∷ []) ((3 ∷ 30 ∷ []) ∷ (5 ∷ 50 ∷ []) ∷ []) (omega arith)
      ((omega arith, tt), (tt, tt)) (entry 3 30 refl refl, (entry 5 50 refl refl, tt))
  where
    entry :
        (k v : ℕ)
        → ltb k u64_mod ≡ true
        → ltb v u64_mod ≡ true
        → Encodes (pair_serial (plain_serial byte) (plain_serial byte)) (k, v) (k ∷ v ∷ [])
    entry k v hk hv =
        pair_serial-Encodes (plain_serial byte) (plain_serial byte) k v (k ∷ []) (v ∷ [])
          (plain_serial-Encodes byte k hk) (plain_serial-Encodes byte v hv)

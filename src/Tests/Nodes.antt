-- ===== src/Tests/Nodes.antt =====
-- A file of two nodes.
use flexps.Base.{
  ℕ, ◌+◌, ◌≡◌, ◌↔◌, refl, List, [], ◌∷◌, map, Option, some, none, true, arith, ◌-◌, ◌*◌,
}
use flexps.Nodes.{Chars, Node, parse_file, check_valid_node_ids}
use flexps.Nodes.Distinct.{DistinctIds, check_valid_node_ids_iff}
use flexps.Nodes.Files.{AllWritten, line_of, parse_file-line_of}

-- A number of one or two digits.
abbrev stoi : Chars → Option ℕ
stoi [] = none
stoi (d ∷ []) = some (d - 48)
stoi (d ∷ e ∷ rest) = some ((d - 48) * 10 + (e - 48))

abbrev nodes : List Node
nodes =
    record { id = 0; hostname = 97 ∷ []; port = 80 }
    ∷ record { id = 1; hostname = 98 ∷ []; port = 81 }
    ∷ []

-- `0:a:80` and `1:b:81`, in parts
abbrev texts : List (Chars × Chars × Chars)
texts = (48 ∷ [], 97 ∷ [], 56 ∷ 48 ∷ []) ∷ (49 ∷ [], 98 ∷ [], 56 ∷ 49 ∷ []) ∷ []

texts-AllWritten : AllWritten stoi texts nodes
texts-AllWritten = (
  record {
    id_plain = (omega arith, tt);
    hostname_plain = (omega arith, tt);
    id_read = refl;
    hostname_same = refl;
    port_read = refl;
  },
  (
    record {
      id_plain = (omega arith, tt);
      hostname_plain = (omega arith, tt);
      id_read = refl;
      hostname_same = refl;
      port_read = refl;
    },
    tt,
  ),
)

parse_file-line_of_example : parse_file stoi (map line_of texts) ≡ some nodes
parse_file-line_of_example = parse_file-line_of stoi texts nodes texts-AllWritten

check_valid_node_ids_iff_example : (check_valid_node_ids nodes ≡ true) ↔ DistinctIds nodes
check_valid_node_ids_iff_example = check_valid_node_ids_iff nodes

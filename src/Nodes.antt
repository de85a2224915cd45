-- ===== src/Nodes.antt =====
-- base/node.hpp and base/node_util.cpp: the nodes of a cluster, and the file that lists them. A string
-- is the list of its characters. `std::stoi`, which answers `none` where it throws, is a parameter.
pub mod Distinct
pub mod Files
use flexps.Base.{
  ℕ, zero, suc, ◌+◌, List, [], ◌∷◌, ◌++◌, Option, none, some, Bool, true, false, ◌==◌, ◌&&◌,
  if◌then◌else◌, ◌>>=◌, Dict, find_or, contains, put,
}

abbrev pub Chars : Type 0
Chars = List ℕ

pub record Node : Type 0 where
  pub id : ℕ
  pub hostname : Chars
  pub port : ℕ

-- `:`
abbrev pub colon : ℕ
colon = 58

-- The characters before the first colon, and those after it: `find` and `substr`. `none` is a failed
-- CHECK_NE.
unfoldable pub split_at_colon : Chars → Option (Chars × Chars)
split_at_colon [] = none
split_at_colon (c ∷ line) =
    let rest = split_at_colon line in
    if c == colon then some ([], line) else (rest >>= λ (before, after). some (c ∷ before, after))

module _ (stoi : Chars → Option ℕ) where
  -- One round of the loop of `ParseFile`.
  unfoldable pub parse_line : Chars → Option Node
  unfolding split_at_colon
  parse_line line = do
    (id, rest) ← split_at_colon line
    (hostname, port) ← split_at_colon rest
    id_value ← stoi id
    port_value ← stoi port
    some (record { id = id_value; hostname = hostname; port = port_value })

  -- `ParseFile`, on the lines of the file.
  unfoldable pub parse_file : List Chars → Option (List Node)
  unfolding parse_line
  parse_file [] = some []
  parse_file (line ∷ lines) = do
    node ← parse_line line
    nodes ← parse_file lines
    some (node ∷ nodes)

-- `std::set<uint32_t>`
abbrev Set : Type 0
Set = Dict (Unit {0})

-- The loop of `CheckValidNodeIds`.
unfoldable pub valid_from : List Node → Set → Bool
valid_from [] ids = true
valid_from (node ∷ nodes) ids =
    let rest = valid_from nodes (put node.id tt ids) in if contains node.id ids then false else rest

unfoldable pub check_valid_node_ids : List Node → Bool
unfolding valid_from
check_valid_node_ids nodes = valid_from nodes []

-- `==` of strings.
abbrev pub eq_chars : Chars → Chars → Bool
eq_chars [] [] = true
eq_chars [] (b ∷ t) = false
eq_chars (a ∷ s) [] = false
eq_chars (a ∷ s) (b ∷ t) = (a == b) && eq_chars s t

-- `std::map<std::string, std::set<uint32_t>>`, which the code never iterates over.
abbrev pub HostPorts : Type 0
HostPorts = List (Chars × Set)

abbrev pub ports_of : Chars → HostPorts → Set
ports_of host [] = []
ports_of host ((h, ports) ∷ m) = if eq_chars host h then ports else ports_of host m

abbrev pub put_ports : Chars → Set → HostPorts → HostPorts
put_ports host ports [] = (host, ports) ∷ []
put_ports host ports ((h, old) ∷ m) =
    if eq_chars host h then (h, ports) ∷ m else (h, old) ∷ put_ports host ports m

-- The loop of `CheckUniquePort`.
unfoldable pub unique_from : List Node → HostPorts → Bool
unique_from [] m = true
unique_from (node ∷ nodes) m =
    let ports = ports_of node.hostname m in
    let rest = unique_from nodes (put_ports node.hostname (put node.port tt ports) m) in
    if contains node.port ports then false else rest

unfoldable pub check_unique_port : List Node → Bool
unfolding unique_from
check_unique_port nodes = unique_from nodes []

-- `none` is the CHECK at the end.
unfoldable pub get_node_by_id : List Node → ℕ → Option Node
get_node_by_id [] id = none
get_node_by_id (node ∷ nodes) id =
    let rest = get_node_by_id nodes id in if id == node.id then some node else rest

-- The loop of `CheckConsecutiveIds`, from the index `i`.
unfoldable pub consecutive_from : ℕ → List Node → Bool
consecutive_from i [] = true
consecutive_from i (node ∷ nodes) =
    let rest = consecutive_from (i + 1) nodes in if node.id == i then rest else false

unfoldable pub check_consecutive_ids : List Node → Bool
unfolding consecutive_from
check_consecutive_ids nodes = consecutive_from 0 nodes

unfoldable pub has_node : List Node → ℕ → Bool
has_node [] id = false
has_node (node ∷ nodes) id = let rest = has_node nodes id in if node.id == id then true else rest

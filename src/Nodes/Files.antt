-- ===== src/Nodes/Files.antt =====
-- The lines `id:hostname:port` of a node file.
use flexps.Base.{ℕ, ◌≡◌, ◌≢◌, refl, List, [], ◌∷◌, ◌++◌, map, Option, some, All, ne→==}
use flexps.Nodes.{Chars, colon, split_at_colon, Node, parse_line, parse_file}

-- A text without a colon.
abbrev pub NoColon : Chars → Type 0
NoColon s = All (λ c. c ≢ colon) s

split_at_colon-append :
    (before after : Chars)
    → NoColon before
    → split_at_colon (before ++ (colon ∷ after)) ≡ some (before, after)
unfolding split_at_colon
split_at_colon-append [] after h = refl
split_at_colon-append (c ∷ before) after h =
    rw (split_at_colon-append before after h.1, ne→== c colon h.0) refl

-- The line that names a node, in the three texts of its fields.
abbrev pub line_of : Chars × Chars × Chars → Chars
line_of (id, hostname, port) = id ++ (colon ∷ (hostname ++ (colon ∷ port)))

module _ (stoi : Chars → Option ℕ) where
  -- The texts of a node that a file can hold: the numbers are read back by `stoi`, and there is no
  -- colon but in the text of the port.
  pub record Written (texts : Chars × Chars × Chars) (node : Node) : Type 0 where
    pub id_plain : NoColon texts.0
    pub hostname_plain : NoColon texts.1
    pub id_read : stoi texts.0 ≡ some node.id
    pub hostname_same : texts.1 ≡ node.hostname
    pub port_read : stoi texts.2 ≡ some node.port

  parse_line-line_of :
      (texts : Chars × Chars × Chars) (node : Node)
      → Written texts node
      → parse_line stoi (line_of texts) ≡ some node
  unfolding parse_line
  parse_line-line_of (id, hostname, port) node w = rw (
    split_at_colon-append id (hostname ++ (colon ∷ port)) w.id_plain,
    split_at_colon-append hostname port w.hostname_plain,
    w.id_read,
    w.port_read,
    w.hostname_same,
  )

  abbrev pub AllWritten : List (Chars × Chars × Chars) → List Node → Type 0
  AllWritten [] [] = Unit
  AllWritten (t ∷ texts) (node ∷ nodes) = Written t node × AllWritten texts nodes
  AllWritten _ _ = ⊥

  -- A file whose lines are written from nodes, with no colon in an id or a hostname and numbers that
  -- `stoi` reads back, is read as those nodes.
  pub parse_file-line_of :
      (texts : List (Chars × Chars × Chars)) (nodes : List Node)
      → AllWritten texts nodes
      → parse_file stoi (map line_of texts) ≡ some nodes
  unfolding parse_file
  parse_file-line_of [] [] w = refl
  parse_file-line_of [] (node ∷ nodes) w = absurd w
  parse_file-line_of (t ∷ texts) [] w = absurd w
  parse_file-line_of (t ∷ texts) (node ∷ nodes) w =
      rw (parse_line-line_of t node w.0, parse_file-line_of texts nodes w.1)

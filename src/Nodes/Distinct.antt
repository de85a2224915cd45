-- ===== src/Nodes/Distinct.antt =====
-- What the checks of a list of nodes say.
use flexps.Base.{
  ℕ, ◌≡◌, ◌≢◌, ◌↔◌, refl, List, [], ◌∷◌, none, some, true, false, ◌==◌, Dict, contains, put,
  find-put, All, arith, Bool-cases, inl, inr, ◌⊎◌,
}
use flexps.Nodes.{Node, valid_from, check_valid_node_ids, has_node, get_node_by_id}

-- No two nodes have the same id.
abbrev pub DistinctIds : List Node → Type 0
DistinctIds [] = Unit
DistinctIds (node ∷ nodes) = All (λ (m : Node). node.id ≢ m.id) nodes × DistinctIds nodes

-- No node has an id of the set.
abbrev NewIds : Dict (Unit {0}) → List Node → Type 0
NewIds ids nodes = All (λ (m : Node). contains m.id ids ≡ false) nodes

NewIds-put :
    (id : ℕ) (ids : Dict (Unit {0})) (nodes : List Node)
    → NewIds (put id tt ids) nodes ↔ (NewIds ids nodes × All (λ (m : Node). id ≢ m.id) nodes)
NewIds-put id ids [] = (λ _. (tt, tt), λ _. tt)
NewIds-put id ids (m ∷ nodes) =
    let (forth, back) = NewIds-put id ids nodes in
    (
      (λ h. (
        (ground (arith, find-put m.id id tt ids), (forth h.1).0),
        (ground (arith, find-put m.id id tt ids), (forth h.1).1),
      )),
      (λ h. (ground (arith, find-put m.id id tt ids), back (h.0.1, h.1.1))),
    )

-- `CheckValidNodeIds` accepts the nodes whose ids are new and distinct.
valid_from_iff :
    (nodes : List Node) (ids : Dict (Unit {0}))
    → (valid_from nodes ids ≡ true) ↔ (NewIds ids nodes × DistinctIds nodes)
unfolding valid_from
valid_from_iff [] ids = (λ _. (tt, tt), λ _. refl)
valid_from_iff (node ∷ nodes) ids =
    let (forth, back) = valid_from_iff nodes (put node.id tt ids) in
    let (split, join) = NewIds-put node.id ids nodes in
    elim (Bool-cases (contains node.id ids)) [
      | inl old ↦ (λ e. absurd (ground arith), λ h. absurd (ground (arith, h.0.0)))
      | inr new ↦ (
        (λ e.
            let h = forth (rw (new, valid_from) at e) in
            ((new, (split h.0).0), ((split h.0).1, h.1))),
        λ h. rw new (back (join (h.0.1, h.1.0), h.1.1)),
      )
    ]

no_ids : (nodes : List Node) → NewIds [] nodes
no_ids [] = tt
no_ids (node ∷ nodes) = (refl, no_ids nodes)

-- `CheckValidNodeIds` accepts a list of nodes if and only if no two of them have the same id.
pub check_valid_node_ids_iff :
    (nodes : List Node) → (check_valid_node_ids nodes ≡ true) ↔ DistinctIds nodes
unfolding check_valid_node_ids
check_valid_node_ids_iff nodes =
    let (forth, back) = valid_from_iff nodes [] in
    ((λ e. (forth e).1), (λ d. back (no_ids nodes, d)))

-- `HasNode` tells whether `GetNodeById` finds a node, and that node has the id.
pub get_node_by_id-has_node :
    (nodes : List Node) (id : ℕ)
    → ((has_node nodes id ≡ false) × (get_node_by_id nodes id ≡ none))
      ⊎ ((has_node nodes id ≡ true)
          × ((node : Node) × (get_node_by_id nodes id ≡ some node) × (node.id ≡ id)))
unfolding has_node get_node_by_id
get_node_by_id-has_node [] id = inl (refl, refl)
get_node_by_id-has_node (node ∷ nodes) id = elim (Bool-cases (node.id == id)) [
  | inl same ↦ inr (ground arith, (node, ground arith, ground arith))
  | inr other ↦ elim (get_node_by_id-has_node nodes id) [
    | inl (absent, missing) ↦ inl (ground arith, ground arith)
    | inr (present, (m, found, same)) ↦ inr (ground arith, (m, ground arith, same))
  ]
]

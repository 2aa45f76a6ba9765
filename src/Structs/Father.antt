-- ===== src/Structs/Father.antt =====
-- find_father_of_node_in_tree against the shape of the tree.
use command_stats.Common.{
  ℕ, true, false, List, [], ◌++◌, Option, none, some, ◌≡◌, refl, ◌==◌, arith, inl, inr, Bool-cases,
  ==_iff,
}
use command_stats.Common.Distinct.{
  has, Distinct, has-append, has-append_left, has-append_right, Distinct-left, Distinct-right,
  Distinct-apart,
}
use command_stats.Structs.Stream.{Appender}
use command_stats.Structs.Node.{
  NodeFields, Operator, Node, executable, operands, Nodes, nil, cons, address, addresses,
  addresses_of_nodes, IsIn, self, under, IsInNodes, first, later, IsOperand, head, tail,
}
use command_stats.Structs.Walk.{find_father_of_node_in_tree, find_father_in_operands}

pub has-address : (n : Node) → has (address n) (addresses n) ≡ true
unfolding addresses
has-address (executable f e) = ground arith
has-address (operands f op a ns) = ground arith

pub has-operand :
    (c : Node) (ns : Nodes) → IsOperand c ns → has (address c) (addresses_of_nodes ns) ≡ true
unfolding addresses_of_nodes
has-operand c nil i = elim i [ ]
has-operand c (cons n ns) head =
    has-append_left (address c) (addresses c) (addresses_of_nodes ns) (has-address c)
has-operand c (cons n ns) (tail i) =
    has-append_right (address c) (addresses n) (addresses_of_nodes ns) (has-operand c ns i)

-- The addresses strictly below a node.
abbrev below : Node → List ℕ
below (executable f e) = []
below (operands f op a ns) = addresses_of_nodes ns

below_weaken : (k : ℕ) (n : Node) → has k (below n) ≡ true → has k (addresses n) ≡ true
unfolding addresses
below_weaken k (executable f e) h = cc
below_weaken k (operands f op a ns) h = ground arith

below_apart : (n : Node) → Distinct (addresses n) → has (address n) (below n) ≡ false
unfolding addresses
below_apart (executable f e) d = refl
below_apart (operands f op a ns) d = d.0

outside_both :
    (c : ℕ) (xs ys : List ℕ) → has c (xs ++ ys) ≡ false → (has c xs ≡ false) × (has c ys ≡ false)
outside_both c xs ys h = ground (arith, has-append c xs ys)

outside_below : (c : ℕ) (n : Node) → has c (addresses n) ≡ false → has c (below n) ≡ false
unfolding addresses
outside_below c (executable f e) h = refl
outside_below c (operands f op a ns) h = ground arith

pub apart-root : (c : ℕ) (n : Node) → has c (addresses n) ≡ false → (address n == c) ≡ false
unfolding addresses
apart-root c (executable f e) h = ground arith
apart-root c (operands f op a ns) h = ground arith

apart-below :
    (k : ℕ) (n : Node) → Distinct (addresses n) → has k (below n) ≡ true → (address n == k) ≡ false
apart-below k n d h = elim (Bool-cases (address n == k)) [
  | inl same ↦ cc (below_apart n d, h, (==_iff (address n) k).0 same)
  | inr other ↦ other
]

-- Whatever stands below a node of a tree stands below the root.
module _ {x : Node} (k : ℕ) (h : has k (below x) ≡ true) where
  mutual
    unfolding addresses addresses_of_nodes

    below-IsIn : {t : Node} → IsIn x t → has k (below t) ≡ true
    below-IsIn self = h
    below-IsIn (under u) = below-IsInNodes u

    below-IsInNodes : {ms : Nodes} → IsInNodes x ms → has k (addresses_of_nodes ms) ≡ true
    below-IsInNodes (first {n} {ns = r} u) =
        has-append_left k (addresses n) (addresses_of_nodes r) (below_weaken k n (below-IsIn u))
    below-IsInNodes (later {n} {ns = r} u) =
        has-append_right k (addresses n) (addresses_of_nodes r) (below-IsInNodes u)

-- A pointer that is nowhere below a tree has no father there.
mutual
  unfolding find_father_of_node_in_tree find_father_in_operands addresses addresses_of_nodes

  pub father-none :
      (c : ℕ) (t : Node) → has c (below t) ≡ false → find_father_of_node_in_tree c t ≡ none
  father-none c (executable f e) h = refl
  father-none c (operands f op a ns) h = father-none_nodes c (operands f op a ns) ns h

  father-none_nodes :
      (c : ℕ) (t : Node) (ns : Nodes)
      → has c (addresses_of_nodes ns) ≡ false
      → find_father_in_operands c t ns ≡ none
  father-none_nodes c t nil h = refl
  father-none_nodes c t (cons n ns) h =
      let out : (has c (addresses n) ≡ false) × (has c (addresses_of_nodes ns) ≡ false) =
        outside_both c (addresses n) (addresses_of_nodes ns) h in
      ground (
        arith,
        apart-root c n out.0,
        father-none c n (outside_below c n out.0),
        father-none_nodes c t ns out.1,
      )

-- The two facts about an operand that the search passes over.
passed_over :
    (k : ℕ) (n : Node) (ns : Nodes)
    → Distinct (addresses n ++ addresses_of_nodes ns)
    → has k (addresses_of_nodes ns) ≡ true
    → ((address n == k) ≡ false) × (find_father_of_node_in_tree k n ≡ none)
passed_over k n ns d h =
    let out : has k (addresses n) ≡ false =
      Distinct-apart k (addresses n) (addresses_of_nodes ns) d h in
    (apart-root k n out, father-none k n (outside_below k n out))

father_hit :
    (c t : Node) (ns : Nodes)
    → IsOperand c ns
    → Distinct (addresses_of_nodes ns)
    → find_father_in_operands (address c) t ns ≡ some t
unfolding find_father_in_operands addresses_of_nodes
father_hit c t nil i d = elim i [ ]
father_hit c t (cons n ns) head d = ground arith
father_hit c t (cons n ns) (tail i) d =
    let (off, skip) = passed_over (address c) n ns d (has-operand c ns i) in
    ground (
      arith,
      off,
      skip,
      father_hit c t ns i (Distinct-right (addresses n) (addresses_of_nodes ns) d),
    )

-- The search finds the operator that holds the node, whichever node of the tree that is.
module _ (f : NodeFields) (op : Operator) (a : Option Appender) (ns : Nodes) (c : Node)
    (i : IsOperand c ns) where
  abbrev holder : Node
  holder = operands f op a ns

  mutual
    unfolding find_father_of_node_in_tree find_father_in_operands addresses addresses_of_nodes

    father-IsIn :
        {t : Node}
        → IsIn (operands f op a ns) t
        → Distinct (addresses t)
        → find_father_of_node_in_tree (address c) t ≡ some (operands f op a ns)
    father-IsIn self d = father_hit c (operands f op a ns) ns i d.1
    father-IsIn (under {f = g} {op = o} {a = b} {ns = ms} u) d =
        father-IsInNodes (operands g o b ms) u d.1

    father-IsInNodes :
        {ms : Nodes} (t : Node)
        → IsInNodes (operands f op a ns) ms
        → Distinct (addresses_of_nodes ms)
        → find_father_in_operands (address c) t ms ≡ some (operands f op a ns)
    father-IsInNodes t (first {n} {ns = r} u) d =
        let in_below : has (address c) (below n) ≡ true =
          below-IsIn {x = holder} (address c) (has-operand c ns i) u in
        let d' : Distinct (addresses n) = Distinct-left (addresses n) (addresses_of_nodes r) d in
        ground (arith, apart-below (address c) n d' in_below, father-IsIn u d')
    father-IsInNodes t (later {n} {ns = r} u) d =
        let in_rest : has (address c) (addresses_of_nodes r) ≡ true =
          below-IsInNodes {x = holder} (address c) (has-operand c ns i) u in
        let (off, skip) = passed_over (address c) n r d in_rest in
        ground (
          arith,
          off,
          skip,
          father-IsInNodes t u (Distinct-right (addresses n) (addresses_of_nodes r) d),
        )

-- With distinct addresses, find_father_of_node_in_tree finds for an operand of any operator node of
-- the tree exactly that operator node.
pub find_father-IsOperand :
    (f : NodeFields) (op : Operator) (a : Option Appender) (ns : Nodes) (c t : Node)
    → IsOperand c ns
    → IsIn (operands f op a ns) t
    → Distinct (addresses t)
    → find_father_of_node_in_tree (address c) t ≡ some (operands f op a ns)
find_father-IsOperand f op a ns c t i u d = father-IsIn f op a ns c i u d

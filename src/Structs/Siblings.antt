-- ===== src/Structs/Siblings.antt =====
-- remove_node_from_operands and find_next_node_in_operands on the array of one operator node.
use command_stats.Common.{
  ℕ, ◌+◌, true, false, ◌≡◌, refl, arith, ◌==◌, if◌then◌else◌, inl, inr, Bool-cases,
}
use command_stats.Structs.Node.{Node, Nodes, nil, cons, address}
use command_stats.Structs.Walk.{shift_operands, remove_node_from_operands}

-- how many operands have this address
unfoldable pub occurrences : ℕ → Nodes → ℕ
occurrences r nil = 0
occurrences r (cons n ns) = (if address n == r then 1 else 0) + occurrences r ns

-- the operands with another address, in their order
unfoldable pub without : ℕ → Nodes → Nodes
without r nil = nil
without r (cons n ns) = if address n == r then without r ns else cons n (without r ns)

pub without_absent : (r : ℕ) (ns : Nodes) → occurrences r ns ≡ 0 → without r ns ≡ ns
unfolding without occurrences
without_absent r nil h = refl
without_absent r (cons n ns) h = ground (arith, without_absent r ns)

shift_passed :
    (n : Node) (ns : Nodes) (r : ℕ) → occurrences r ns ≡ 0 → shift_operands true (cons n ns) r ≡ ns
unfolding shift_operands occurrences
shift_passed n nil r h = refl
shift_passed n (cons m ns) r h = ground (arith, shift_passed m ns r)

shift_absent :
    (n m : Node) (ns : Nodes) (r : ℕ)
    → (address n == r) ≡ false
    → shift_operands false (cons n (cons m ns)) r ≡ cons n (shift_operands false (cons m ns) r)
unfolding shift_operands
shift_absent n m ns r h = rw h

shift_here :
    (n : Node) (ns : Nodes) (r : ℕ)
    → (address n == r) ≡ true
    → occurrences r ns ≡ 0
    → shift_operands false (cons n ns) r ≡ ns
unfolding shift_operands occurrences
shift_here n nil r h o = refl
shift_here n (cons m ns) r h o = ground (arith, shift_passed m ns r)

shift-without :
    (ns : Nodes) (r : ℕ) → occurrences r ns ≡ 1 → shift_operands false ns r ≡ without r ns
unfolding without occurrences
shift-without nil r h = absurd (omega arith)
shift-without (cons n nil) r h = elim (Bool-cases (address n == r)) [
  | inl same ↦ rw same (shift_here n nil r same refl)
  | inr other ↦ absurd (ground arith)
]
shift-without (cons n (cons m ms)) r h = elim (Bool-cases (address n == r)) [
  | inl same ↦ ground (arith, shift_here n (cons m ms) r same, without_absent r (cons m ms))
  | inr other ↦ ground (arith, shift_absent n m ms r other, shift-without (cons m ms) r)
]

-- Where exactly one operand is the node to remove, remove_node_from_operands leaves the others, in
-- their order.
pub remove_node-without :
    (ns : Nodes) (r : ℕ) → occurrences r ns ≡ 1 → remove_node_from_operands ns r ≡ without r ns
unfolding remove_node_from_operands
remove_node-without ns r h = shift-without ns r h

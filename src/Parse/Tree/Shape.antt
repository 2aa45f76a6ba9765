-- ===== src/Parse/Tree/Shape.antt =====
-- The shape of the tree that the parser returns, on which the wiring and the execution rely.
use command_stats.Common.{
  ℕ, zero, suc, ◌+◌, ◌<◌, ◌≡◌, refl, ap, List, [], ◌∷◌, Option, none, some, arith, length, ltb,
  ltb→lt, Bool-cases, inl, inr,
}
use command_stats.Common.Distinct.{Distinct}
use command_stats.Common.Outcome.{Outcome, done-injective, done, fault, ◌>>=◌, bind-eq-done}
use command_stats.Common.Text.{Text}
use command_stats.Structs.Node.{Operator, Node, executable, operands, Nodes, addresses, to_list}
use command_stats.Builtin.Wire.Complete.{HasPipes}
use mathlib.Core.Path.{subst}
use command_stats.Parse.Operators.{create_split_for_operator, executable_separator}
use command_stats.Parse.Executable.{create_executable_from_string}
use command_stats.Parse.Brackets.{remove_brackets_if_alone}
use command_stats.Parse.Redirect.{create_split_command_from_redirect}
use command_stats.Parse.Tree.{
  Environment, Parsed, create_node, priority_map, find_entry, parse_executable,
  create_nodes_from_strings, create_node_from_string,
}
use command_stats.Parse.Tree.Ranges.{
  HasShape, HaveShape, nil-HaveShape, cons-HaveShape, operands-HasShape, with_redirects-HasShape,
}

-- A result of one piece has the shape, from an address on.
abbrev Creates : (ℕ → Text → Outcome Parsed) → Type 0
Creates create = (next : ℕ) (s : Text) (r : Parsed) → create next s ≡ done r → HasShape next r.1 r.0

create_nodes-HaveShape :
    (create : ℕ → Text → Outcome Parsed) (next : ℕ) (pieces : List Text) (r : Nodes × ℕ)
    → Creates create
    → create_nodes_from_strings create next pieces ≡ done r
    → HaveShape next r.1 r.0 × (length (to_list r.0) ≡ length pieces)
unfolding create_nodes_from_strings
create_nodes-HaveShape create next [] r good h =
    subst (λ (p : Nodes × ℕ). HaveShape next p.1 p.0 × (length (to_list p.0) ≡ 0))
      (done-injective h) (nil-HaveShape next, refl)
create_nodes-HaveShape create next (piece ∷ pieces) r good h =
    let (x, e, k) = bind-eq-done (create next piece) _ h in
    let (y, e', k') = bind-eq-done (create_nodes_from_strings create x.1 pieces) _ k in
    let (t, l) = create_nodes-HaveShape create x.1 pieces y good e' in
    subst (λ (p : Nodes × ℕ). HaveShape next p.1 p.0 × (length (to_list p.0) ≡ suc (length pieces)))
      (done-injective k') (cons-HaveShape next x.1 y.1 x.0 y.0 (good next piece x e) t, ap suc l)

-- The operator that is found has more than one piece.
abbrev HasPieces : Option (Operator × List Text) → Type 0
HasPieces none = Unit
HasPieces (some (op, pieces)) = 1 < length pieces

find_entry-HasPieces :
    (env : Environment) (next : ℕ) (string : Text) (entries : List (Operator × Text))
    (r : Option (Operator × List Text))
    → find_entry env next string entries ≡ done r
    → HasPieces r
unfolding find_entry
find_entry-HasPieces env next string [] r h = subst HasPieces (done-injective h) tt
find_entry-HasPieces env next string ((op, separator) ∷ entries) r h =
    let (pieces, e, k) =
      bind-eq-done (create_split_for_operator env.regexec string separator (env.behind next string))
        _ h in
    elim (Bool-cases (ltb 1 (length pieces))) [
      | inl more ↦ subst HasPieces (done-injective (rw more at k)) (ltb→lt 1 (length pieces) more)
      | inr less ↦ find_entry-HasPieces env next string entries r (rw less at k)
    ]

executable-HasShape :
    (env : Environment) (next : ℕ) (pieces : List Text) (r : Parsed)
    → (elim pieces [
      | [] ↦ fault
      | ◌∷◌ first rest ↦
          create_executable_from_string env.regexec first (env.behind next first) >>= λ e.
          done (executable (create_node env next) e, next + 1)
    ])
      ≡ done r
    → HasShape next r.1 r.0
unfolding addresses HasPipes
executable-HasShape env next [] r h = cc
executable-HasShape env next (first ∷ rest) r h =
    let (e, h', k) =
      bind-eq-done (create_executable_from_string env.regexec first (env.behind next first)) _ h in
    subst (λ (p : Parsed). HasShape next p.1 p.0) (done-injective k)
      (record {
        ordered = omega arith;
        between = ((omega arith, omega arith), tt);
        distinct = (refl, tt);
        pipes = tt;
      })

parse_executable-HasShape :
    (env : Environment) (next : ℕ) (string : Text) (r : Parsed)
    → parse_executable env next string ≡ done r
    → HasShape next r.1 r.0
unfolding parse_executable
parse_executable-HasShape env next string r h =
    let (pieces, e, k) =
      bind-eq-done
        (create_split_for_operator env.regexec string executable_separator (env.behind next string))
        _ h in
    executable-HasShape env next pieces r k

-- The node of the operator that is found, or the executable.
entry-HasShape :
    (k : ℕ) (env : Environment) (next : ℕ) (string : Text) (entry : Option (Operator × List Text))
    (r : Parsed)
    → Creates (create_node_from_string k env)
    → HasPieces entry
    → (elim entry [
      | none ↦ parse_executable env next string
      | some (op, pieces) ↦
          create_nodes_from_strings (create_node_from_string k env) (next + 1) pieces
          >>= λ (ns, last). done (operands (create_node env next) op none ns, last)
    ])
      ≡ done r
    → HasShape next r.1 r.0
entry-HasShape k env next string none r good more h = parse_executable-HasShape env next string r h
entry-HasShape k env next string (some (op, pieces)) r good more h =
    let (x, e, h') =
      bind-eq-done (create_nodes_from_strings (create_node_from_string k env) (next + 1) pieces) _
        h in
    let (t, l) =
      create_nodes-HaveShape (create_node_from_string k env) (next + 1) pieces x good e in
    subst (λ (p : Parsed). HasShape next p.1 p.0) (done-injective h')
      (operands-HasShape x.1 (create_node env next) op none x.0 (omega arith) t)

create_node-HasShape : (k : ℕ) (env : Environment) → Creates (create_node_from_string k env)
unfolding create_node_from_string
create_node-HasShape zero env next s r h = cc
create_node-HasShape (suc k) env next s r h =
    let (split, e, h1) =
      bind-eq-done (create_split_command_from_redirect (length s + 2) env.regexec s) _ h in
    let (string, e1, h2) =
      bind-eq-done (remove_brackets_if_alone env.regexec env.regfree_again split.command) _ h1 in
    let (entry, e2, h3) = bind-eq-done (find_entry env next string priority_map) _ h2 in
    let (x, e3, h4) =
      bind-eq-done
        (elim entry [
          | none ↦ parse_executable env next string
          | some (op, pieces) ↦
              create_nodes_from_strings (create_node_from_string k env) (next + 1) pieces
              >>= λ (ns, last). done (operands (create_node env next) op none ns, last)
        ])
        _ h3 in
    subst (λ (p : Parsed). HasShape next p.1 p.0) (done-injective h4)
      (with_redirects-HasShape next x.1 split x.0 (
        entry-HasShape k env next string entry x (create_node-HasShape k env)
          (find_entry-HasPieces env next string priority_map entry e2) e3))

-- Whatever regexec answers, no two nodes of a tree that the parser returns have the same address,
-- and each of its pipes has two operands or more.
pub create_node_from_string-HasPipes :
    (k : ℕ) (env : Environment) (next : ℕ) (s : Text) {n : Node} {after : ℕ}
    → create_node_from_string k env next s ≡ done (n, after)
    → Distinct (addresses n) × HasPipes n
create_node_from_string-HasPipes k env next s {n} {after} h =
    let shape = create_node-HasShape k env next s (n, after) h in (shape.distinct, shape.pipes)

-- ===== src/Structs/Found.antt =====
-- find_node_in_tree_with_pid: what it finds, and that it finds all.
use command_stats.Common.{
  ℕ, ◌≢◌, false, Option, none, some, ◌≡◌, refl, sym, arith, ◌==◌, ◌⊎◌, inl, inr, Bool-cases, ==_iff,
}
use mathlib.Core.Path.{subst}
use command_stats.Structs.Node.{
  NodeFields, ExecutableNode, Operator, Node, executable, operands, Nodes, nil, cons, fields, IsIn,
  self, under, IsInNodes, first, later, IsOperand, head, tail,
}
use command_stats.Structs.Stream.{Appender}
use command_stats.Structs.Walk.{
  is_operand_node, Found, set_father, find_node_in_tree_with_pid, find_in_operands_with_pid,
}

-- the father of a found node: none if it is the root, else an operator node that holds it
abbrev FatherOf : Option Node → Node → Node → Type 0
FatherOf none x t = x ≡ t
FatherOf (some (executable f e)) x t = ⊥
FatherOf (some (operands f op a ns)) x t = IsOperand x ns × IsIn (operands f op a ns) t

pub record IsFound (t : Node) (pid : ℕ) (r : Found) : Type 0 where
  pub has_pid : (fields r.result).pid ≡ pid
  pub is_executable : is_operand_node r.result ≡ false
  pub inside : IsIn r.result t
  pub father : FatherOf r.result_father r.result t

-- No executable of the tree has this pid.
unfoldable mutual
  pub Absent : ℕ → Node → Type 0
  Absent pid (executable f e) = f.pid ≢ pid
  Absent pid (operands f op a ns) = AbsentInNodes pid ns

  pub AbsentInNodes : ℕ → Nodes → Type 0
  AbsentInNodes pid nil = Unit
  AbsentInNodes pid (cons n ns) = Absent pid n × AbsentInNodes pid ns

-- the same of the operands `ns` of the operator node `tree`
abbrev HeldIn : Node → Node → Nodes → Type 0
HeldIn (executable f e) x ns = ⊥
HeldIn (operands f op a ms) x ns = IsOperand x ms × IsInNodes (operands f op a ms) ns

abbrev FatherIn : Node → Option Node → Node → Nodes → Type 0
FatherIn tree none x ns = ⊥
FatherIn tree (some p) x ns = ((p ≡ tree) × IsOperand x ns) ⊎ HeldIn p x ns

record IsFoundIn (tree : Node) (ns : Nodes) (pid : ℕ) (r : Found) : Type 0 where
  has_pid : (fields r.result).pid ≡ pid
  is_executable : is_operand_node r.result ≡ false
  inside : IsInNodes r.result ns
  father : FatherIn tree r.result_father r.result ns

-- What find_node_in_tree_with_pid answers: an executable of the tree with this pid and the operator
-- node that holds it (none for the root), or nothing, where no executable of the tree has it.
unfoldable pub Answer : Node → ℕ → Option Found → Type 0
Answer t pid none = Absent pid t
Answer t pid (some r) = IsFound t pid r

AnswerIn : Node → Nodes → ℕ → Option Found → Type 0
AnswerIn tree ns pid none = AbsentInNodes pid ns
AnswerIn tree ns pid (some r) = IsFoundIn tree ns pid r

set_father-FatherIn :
    (tree n : Node) (ns : Nodes) (x : Node) (p : Option Node)
    → FatherOf p x n
    → FatherIn tree
        (set_father tree (record { result = x; result_father = p })).result_father
        x
        (cons n ns)
unfolding set_father
set_father-FatherIn tree n ns x none e =
    inl (refl, subst (λ (m : Node). IsOperand x (cons m ns)) e head)
set_father-FatherIn tree n ns x (some (executable f e)) h = absurd h
set_father-FatherIn tree n ns x (some (operands f op a ms)) h = inr (h.0, first h.1)

set_father-IsFoundIn :
    (tree n : Node) (ns : Nodes) (pid : ℕ) (r : Found)
    → IsFound n pid r
    → IsFoundIn tree (cons n ns) pid (set_father tree r)
unfolding set_father
set_father-IsFoundIn tree n ns pid r h = record {
  has_pid = h.has_pid;
  is_executable = h.is_executable;
  inside = first h.inside;
  father = set_father-FatherIn tree n ns r.result r.result_father h.father;
}

later-FatherIn :
    (tree n : Node) (ns : Nodes) (x : Node) (p : Option Node)
    → FatherIn tree p x ns
    → FatherIn tree p x (cons n ns)
later-FatherIn tree n ns x none h = h
later-FatherIn tree n ns x (some p) (inl h) = inl (h.0, tail h.1)
later-FatherIn tree n ns x (some (executable f e)) (inr h) = inr h
later-FatherIn tree n ns x (some (operands f op a ms)) (inr h) = inr (h.0, later h.1)

under-FatherOf :
    (f : NodeFields) (op : Operator) (a : Option Appender) (ns : Nodes) (x : Node) (p : Option Node)
    → FatherIn (operands f op a ns) p x ns
    → FatherOf p x (operands f op a ns)
under-FatherOf f op a ns x none h = absurd h
under-FatherOf f op a ns x (some p) (inl h) =
    subst (λ (q : Node). FatherOf (some q) x (operands f op a ns)) (sym h.0) (h.1, self)
under-FatherOf f op a ns x (some (executable g e)) (inr h) = h
under-FatherOf f op a ns x (some (operands g o b ms)) (inr h) = (h.0, under h.1)

executable-Answer :
    (f : NodeFields) (e : ExecutableNode) (pid : ℕ)
    → Answer (executable f e) pid (find_node_in_tree_with_pid (executable f e) pid)
unfolding find_node_in_tree_with_pid Answer Absent is_operand_node
executable-Answer f e pid = elim (Bool-cases (f.pid == pid)) [
  | inl same ↦ rw same (record {
    has_pid = (==_iff f.pid pid).0 same;
    is_executable = refl;
    inside = self;
    father = refl;
  })
  | inr other ↦ rw other (λ same. ground arith)
]

under-Answer :
    (f : NodeFields) (op : Operator) (a : Option Appender) (ns : Nodes) (pid : ℕ) (r : Option Found)
    → AnswerIn (operands f op a ns) ns pid r
    → Answer (operands f op a ns) pid r
unfolding Answer AnswerIn Absent
under-Answer f op a ns pid none h = h
under-Answer f op a ns pid (some r) h = record {
  has_pid = h.has_pid;
  is_executable = h.is_executable;
  inside = under h.inside;
  father = under-FatherOf f op a ns r.result r.result_father h.father;
}

later-AnswerIn :
    (tree n : Node) (ns : Nodes) (pid : ℕ) (r : Option Found)
    → Absent pid n
    → AnswerIn tree ns pid r
    → AnswerIn tree (cons n ns) pid r
unfolding AnswerIn Absent
later-AnswerIn tree n ns pid none out h = (out, h)
later-AnswerIn tree n ns pid (some r) out h = record {
  has_pid = h.has_pid;
  is_executable = h.is_executable;
  inside = later h.inside;
  father = later-FatherIn tree n ns r.result r.result_father h.father;
}

first-AnswerIn :
    (tree n : Node) (ns : Nodes) (pid : ℕ) (r : Option Found)
    → Answer n pid r
    → AnswerIn tree ns pid (find_in_operands_with_pid tree ns pid)
    → AnswerIn tree (cons n ns) pid (elim r [
      | some r ↦ some (set_father tree r)
      | none ↦ find_in_operands_with_pid tree ns pid
    ])
unfolding Answer AnswerIn
first-AnswerIn tree n ns pid (some r) h rest = set_father-IsFoundIn tree n ns pid r h
first-AnswerIn tree n ns pid none h rest = later-AnswerIn tree n ns pid _ h rest

mutual
  unfolding find_node_in_tree_with_pid find_in_operands_with_pid AnswerIn Absent

  answer : (t : Node) (pid : ℕ) → Answer t pid (find_node_in_tree_with_pid t pid)
  answer (executable f e) pid = executable-Answer f e pid
  answer (operands f op a ns) pid =
      under-Answer f op a ns pid _ (answer_in (operands f op a ns) ns pid)

  answer_in :
      (tree : Node) (ns : Nodes) (pid : ℕ)
      → AnswerIn tree ns pid (find_in_operands_with_pid tree ns pid)
  answer_in tree nil pid = tt
  answer_in tree (cons n ns) pid =
      first-AnswerIn tree n ns pid _ (answer n pid) (answer_in tree ns pid)

-- find_node_in_tree_with_pid answers with an executable of the tree that has the pid, together with
-- the operator node whose operand it is (none if it is the root), or with nothing, and then no
-- executable of the tree has the pid.
pub find_node-Answer : (t : Node) (pid : ℕ) → Answer t pid (find_node_in_tree_with_pid t pid)
find_node-Answer t pid = answer t pid

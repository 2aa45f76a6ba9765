-- ===== src/Builtin/Cd/Commands.antt =====
-- The operands of an operator node as a list of commands: finding, changing and removing one.
use command_stats.Common.{
  ℕ, ◌≡◌, refl, ap, ◌∙◌, true, false, List, [], ◌∷◌, ◌++◌, Option, none, some, arith, length,
  get_elem?, ==_iff, All, append_assoc,
}
use command_stats.Common.Distinct.{has, has-append, Distinct, Distinct-right, Distinct-apart}
use command_stats.Common.Outcome.{done}
use command_stats.Common.Text.{Text}
use command_stats.Structs.Node.{
  NodeFields, ExecutableNode, Node, executable, Nodes, nil, cons, to_list,
}
use command_stats.Structs.Walk.{find_next_node_in_operands, remove_node_from_operands}
use command_stats.Structs.Siblings.{occurrences, without, without_absent, remove_node-without}
use command_stats.Builtin.Cd.{add_cd, is_cd, add_cd_at}

abbrev pub Command : Type 0
Command = NodeFields × ExecutableNode

abbrev pub commands : List Command → Nodes
commands [] = nil
commands ((f, e) ∷ cs) = cons (executable f e) (commands cs)

abbrev pub keys : List Command → List ℕ
keys [] = []
keys ((f, e) ∷ cs) = f.address ∷ keys cs

abbrev pub IsCounted : Command → Type 0
IsCounted (f, e) = e.argc ≡ length e.argv

-- executable->argv[1]
abbrev pub argument : ExecutableNode → Text
argument e = elim (get_elem? e.argv 1) [ none ↦ [] | some dir ↦ dir ]

abbrev pub in_directories : ExecutableNode → List Text → ExecutableNode
in_directories e dirs = record e { cd = e.cd ++ dirs }

-- The commands that are left, where these directories are to be entered: a `cd` goes away, and every
-- other command enters the directories of the `cd`s before it.
unfoldable pub enter : List Text → List Command → List Command
unfolding is_cd
enter dirs [] = []
enter dirs ((f, e) ∷ cs) = elim (is_cd e) [
  | true ↦ enter (dirs ++ argument e ∷ []) cs
  | false ↦ (f, in_directories e dirs) ∷ enter dirs cs
]

unfoldable pub add_all : Text → List Command → List Command
add_all dir [] = []
add_all dir ((f, e) ∷ cs) = (f, add_cd e dir) ∷ add_all dir cs

pub keys-append : (cs ds : List Command) → keys (cs ++ ds) ≡ keys cs ++ keys ds
keys-append [] ds = refl
keys-append ((f, e) ∷ cs) ds = ap (λ (l : List ℕ). f.address ∷ l) (keys-append cs ds)

pub keys-add_all : (dir : Text) (cs : List Command) → keys (add_all dir cs) ≡ keys cs
unfolding add_all
keys-add_all dir [] = refl
keys-add_all dir ((f, e) ∷ cs) = ap (λ (l : List ℕ). f.address ∷ l) (keys-add_all dir cs)

pub length-add_all : (dir : Text) (cs : List Command) → length (add_all dir cs) ≡ length cs
unfolding add_all
length-add_all dir [] = refl
length-add_all dir ((f, e) ∷ cs) = omega (arith, length-add_all dir cs)

pub IsCounted-add_all :
    (dir : Text) (cs : List Command) → All IsCounted cs → All IsCounted (add_all dir cs)
unfolding add_all add_cd
IsCounted-add_all dir [] h = tt
IsCounted-add_all dir ((f, e) ∷ cs) h = (h.0, IsCounted-add_all dir cs h.1)

pub enter-add_all :
    (dir : Text) (dirs : List Text) (cs : List Command)
    → enter dirs (add_all dir cs) ≡ enter (dir ∷ dirs) cs
unfolding add_all enter add_cd is_cd
enter-add_all dir dirs [] = refl
enter-add_all dir dirs ((f, e) ∷ cs) = ground (
  arith,
  enter-add_all dir dirs cs,
  enter-add_all dir (dirs ++ argument e ∷ []) cs,
  append_assoc e.cd (dir ∷ []) dirs,
)

-- The command after the ones in `pre`, whose address is not among theirs.
pub find_next-after :
    (pre : List Command) (f : NodeFields) (e : ExecutableNode) (cs : List Command)
    → has f.address (keys pre) ≡ false
    → find_next_node_in_operands (commands (pre ++ (f, e) ∷ cs)) f.address
      ≡ elim cs as (λ _. Option Node) [ [] ↦ none | (g, d) ∷ ds ↦ some (executable g d) ]
unfolding find_next_node_in_operands
find_next-after [] f e [] h = refl
find_next-after [] f e ((g, d) ∷ ds) h = ground arith
find_next-after ((p, q) ∷ []) f e cs h = ground (arith, find_next-after [] f e cs refl)
find_next-after ((p, q) ∷ (r, s) ∷ pre) f e cs h =
    ground (arith, find_next-after ((r, s) ∷ pre) f e cs)

pub add_cd_at-command :
    (dir : Text) (pre : List Command) (f : NodeFields) (e : ExecutableNode) (cs : List Command)
    → has f.address (keys pre) ≡ false
    → add_cd_at f.address dir (commands (pre ++ (f, e) ∷ cs))
      ≡ done (commands (pre ++ (f, add_cd e dir) ∷ cs))
unfolding add_cd_at
add_cd_at-command dir [] f e cs h = ground arith
add_cd_at-command dir ((p, q) ∷ pre) f e cs h = ground (arith, add_cd_at-command dir pre f e cs)

-- The address of a command is not among those before it.
pub apart-before :
    (pre : List Command) (f : NodeFields) (e : ExecutableNode) (cs : List Command)
    → Distinct (keys (pre ++ (f, e) ∷ cs))
    → has f.address (keys pre) ≡ false
apart-before pre f e cs d =
    Distinct-apart f.address (keys pre) (f.address ∷ keys cs)
      (rw (keys-append pre ((f, e) ∷ cs)) at d) (ground (arith, ==_iff f.address f.address))

pub apart-behind :
    (pre : List Command) (f : NodeFields) (e : ExecutableNode) (cs : List Command)
    → Distinct (keys (pre ++ (f, e) ∷ cs))
    → has f.address (keys cs) ≡ false
apart-behind pre f e cs d =
    (Distinct-right (keys pre) (f.address ∷ keys cs) (rw (keys-append pre ((f, e) ∷ cs)) at d)).0

pub next_command :
    (pre : List Command) (c : Command) (cs : List Command) → (pre ++ c ∷ []) ++ cs ≡ pre ++ c ∷ cs
next_command pre c cs = append_assoc pre (c ∷ []) cs

pub occurrences-absent :
    (a : ℕ) (cs : List Command) → has a (keys cs) ≡ false → occurrences a (commands cs) ≡ 0
unfolding occurrences
occurrences-absent a [] h = refl
occurrences-absent a ((f, e) ∷ cs) h = ground (arith, occurrences-absent a cs)

pub occurrences-once :
    (pre : List Command) (f : NodeFields) (e : ExecutableNode) (cs : List Command)
    → has f.address (keys pre) ≡ false
    → has f.address (keys cs) ≡ false
    → occurrences f.address (commands (pre ++ (f, e) ∷ cs)) ≡ 1
unfolding occurrences
occurrences-once [] f e cs h g =
    ground (arith, occurrences-absent f.address cs g, ==_iff f.address f.address)
occurrences-once ((p, q) ∷ pre) f e cs h g = ground (arith, occurrences-once pre f e cs)

pub without-once :
    (pre : List Command) (f : NodeFields) (e : ExecutableNode) (cs : List Command)
    → has f.address (keys pre) ≡ false
    → has f.address (keys cs) ≡ false
    → without f.address (commands (pre ++ (f, e) ∷ cs)) ≡ commands (pre ++ cs)
unfolding without
without-once [] f e cs h g = ground (
  arith,
  without_absent f.address (commands cs) (occurrences-absent f.address cs g),
  ==_iff f.address f.address,
)
without-once ((p, q) ∷ pre) f e cs h g = ground (arith, without-once pre f e cs)

pub get-command :
    (pre : List Command) (f : NodeFields) (e : ExecutableNode) (cs : List Command)
    → get_elem? (to_list (commands (pre ++ (f, e) ∷ cs))) (length pre) ≡ some (executable f e)
get-command [] f e cs = refl
get-command ((p, q) ∷ pre) f e cs = get-command pre f e cs

pub remove_command :
    (pre : List Command) (f : NodeFields) (e : ExecutableNode) (cs : List Command)
    → Distinct (keys (pre ++ (f, e) ∷ cs))
    → remove_node_from_operands (commands (pre ++ (f, e) ∷ cs)) f.address ≡ commands (pre ++ cs)
remove_command pre f e cs d =
    let before = apart-before pre f e cs d in
    let behind = apart-behind pre f e cs d in
    remove_node-without (commands (pre ++ (f, e) ∷ cs)) f.address
      (occurrences-once pre f e cs before behind)
    ∙ without-once pre f e cs before behind

pub Distinct-add_all :
    (dir : Text) (pre : List Command) (c : Command) (cs : List Command)
    → Distinct (keys (pre ++ c ∷ cs))
    → Distinct (keys (pre ++ c ∷ add_all dir cs))
Distinct-add_all dir pre c cs d =
    rw (keys-append pre (c ∷ add_all dir cs), keys-add_all dir cs)
      (rw (keys-append pre (c ∷ cs)) at d)

pub Distinct-drop :
    (xs : List ℕ) (a : ℕ) (ys : List ℕ) → Distinct (xs ++ a ∷ ys) → Distinct (xs ++ ys)
Distinct-drop [] a ys d = d.1
Distinct-drop (x ∷ xs) a ys d =
    (ground (arith, has-append x xs ys, has-append x xs (a ∷ ys), d.0), Distinct-drop xs a ys d.1)

pub Distinct-removed :
    (pre : List Command) (c : Command) (cs : List Command)
    → Distinct (keys (pre ++ c ∷ cs))
    → Distinct (keys (pre ++ cs))
Distinct-removed pre c cs d =
    rw (keys-append pre cs)
      (Distinct-drop (keys pre) c.0.address (keys cs) (rw (keys-append pre (c ∷ cs)) at d))

pub get-end : (pre : List Command) → get_elem? (to_list (commands (pre ++ []))) (length pre) ≡ none
get-end [] = refl
get-end ((p, q) ∷ pre) = get-end pre

-- ===== src/Parse/Tree.antt =====
-- create_node_from_string and create_tree_from_string of src/parse/parse.c: the recursive parser.
mod Ranges
pub mod Shape
pub mod Ends
use command_stats.Common.{
  ℕ, zero, suc, ◌+◌, Bool, true, false, List, [], ◌∷◌, Option, none, some, length, ltb,
}
use command_stats.Common.Outcome.{Outcome, done, fault, out_of_fuel, ◌>>=◌}
use command_stats.Common.Text.{Text}
use command_stats.Regex.{Regexec}
use command_stats.Structs.Node.{
  NodeFields, Operator, pipe_node, and_node, or_node, semicolon_node, Node, executable, operands,
  Nodes, nil, cons,
}
use command_stats.Parse.Brackets.{remove_brackets_if_alone}
use command_stats.Parse.Operators.{
  and_separator, or_separator, pipe_separator, semicolon_separator, executable_separator,
  create_split_for_operator,
}
use command_stats.Parse.Redirect.{
  RedirectSplit, create_split_command_from_redirect, redirect_streams_of_node_to_files,
}
use command_stats.Parse.Executable.{create_executable_from_string}

-- What the parser does not decide: regexec, the texts that stand in memory behind the copy of a text
-- at a moment of the parse, and what the memory of a new node's `pid` holds;
-- and whether regfree may be called of an expression that is freed. A moment is the number
-- of nodes allocated so far, which is also the address of the next one.
pub record Environment : Type 0 where
  pub regexec : Regexec
  pub behind : ℕ → Text → List Text
  pub unwritten_pid : ℕ → ℕ
  pub regfree_again : Bool

-- create_node
abbrev pub create_node : Environment → ℕ → NodeFields
create_node env next = record {
  address = next;
  std_in = none;
  std_out = none;
  result = none;
  pid = env.unwritten_pid next;
}

-- the entries of priority_map in front of the executable's
abbrev pub priority_map : List (Operator × Text)
priority_map =
    (and_node, and_separator)
    ∷ (or_node, or_separator)
    ∷ (pipe_node, pipe_separator)
    ∷ (semicolon_node, semicolon_separator)
    ∷ []

-- The node that a handler returns, and the next address.
abbrev pub Parsed : Type 0
Parsed = Node × ℕ

-- The entry that is taken: the first operator with more than one piece, with its pieces, or none.
unfoldable pub find_entry :
    Environment → ℕ → Text → List (Operator × Text) → Outcome (Option (Operator × List Text))
find_entry env next string [] = done none
find_entry env next string ((op, separator) ∷ entries) =
    create_split_for_operator env.regexec string separator (env.behind next string) >>= λ pieces.
    elim (ltb 1 (length pieces)) [
      | true ↦ done (some (op, pieces))
      | false ↦ find_entry env next string entries
    ]

-- create_executable_from_string of the split at "($)"; `next` is the new node's address.
unfoldable pub parse_executable : Environment → ℕ → Text → Outcome Parsed
parse_executable env next string =
    create_split_for_operator env.regexec string executable_separator (env.behind next string)
    >>= λ pieces. elim pieces [
      | [] ↦ fault
      | ◌∷◌ first rest ↦
          create_executable_from_string env.regexec first (env.behind next first) >>= λ e.
          done (executable (create_node env next) e, next + 1)
    ]

-- with_redirects is redirect_streams_of_node_to_files on the node
abbrev pub with_redirects : RedirectSplit → Node → Node
with_redirects split (executable f e) = executable (redirect_streams_of_node_to_files f split) e
with_redirects split (operands f op a ns) =
    operands (redirect_streams_of_node_to_files f split) op a ns

-- The loop of create_pipe_from_strings and create_operands_from_string over the pieces.
unfoldable pub create_nodes_from_strings :
    (ℕ → Text → Outcome Parsed) → ℕ → List Text → Outcome (Nodes × ℕ)
create_nodes_from_strings create next [] = done (nil, next)
create_nodes_from_strings create next (piece ∷ pieces) = create next piece >>= λ (n, next').
    create_nodes_from_strings create next' pieces >>= λ (ns, last). done (cons n ns, last)

-- The depth of the recursion is bounded by the fuel.
unfoldable pub create_node_from_string : ℕ → Environment → ℕ → Text → Outcome Parsed
unfolding find_entry parse_executable create_nodes_from_strings
create_node_from_string zero env next raw_string = out_of_fuel
create_node_from_string (suc k) env next raw_string =
    create_split_command_from_redirect (length raw_string + 2) env.regexec raw_string >>= λ split.
    remove_brackets_if_alone env.regexec env.regfree_again split.command >>= λ string.
    find_entry env next string priority_map >>= λ entry.
    (elim entry [
      | none ↦ parse_executable env next string
      | some (op, pieces) ↦
          create_nodes_from_strings (create_node_from_string k env) (next + 1) pieces
          >>= λ (ns, last). done (operands (create_node env next) op none ns, last)
    ])
    >>= λ (parsed, last). done (with_redirects split parsed, last)

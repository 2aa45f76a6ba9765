-- ===== src/Parse/Tree/Ranges.antt =====
-- Trees whose addresses were given out in one stretch, as the parser does (create_node of
-- src/structs/node.c, called in the order of src/parse/parse.c).
use command_stats.Common.{
  ℕ, ◌+◌, ◌≤◌, ◌<◌, ◌≡◌, refl, false, List, [], ◌∷◌, ◌++◌, Option, arith, length, All, All-append,
  ◌⊎◌, inl,
}
use command_stats.Common.Distinct.{has, has-append, Distinct}
use command_stats.Structs.Node.{
  NodeFields, Operator, pipe_node, and_node, or_node, semicolon_node, Node, executable, operands,
  Nodes, nil, cons, addresses, addresses_of_nodes, to_list,
}
use command_stats.Structs.Stream.{Appender}
use command_stats.Builtin.Wire.Complete.{HasPipes, HavePipes}
use command_stats.Parse.Redirect.{RedirectSplit, redirect_streams_of_node_to_files}
use command_stats.Parse.Tree.{with_redirects}

abbrev pub IsBetween : ℕ → ℕ → ℕ → Type 0
IsBetween a b x = (a ≤ x) × (x < b)

widen :
    (a b a' b' : ℕ) (xs : List ℕ)
    → a' ≤ a
    → b ≤ b'
    → All (IsBetween a b) xs
    → All (IsBetween a' b') xs
widen a b a' b' [] l h all = tt
widen a b a' b' (x ∷ xs) l h all =
    ((omega (arith, all.0), omega (arith, all.0)), widen a b a' b' xs l h all.1)

has-outside :
    (a b x : ℕ) (xs : List ℕ) → (x < a) ⊎ (b ≤ x) → All (IsBetween a b) xs → has x xs ≡ false
has-outside a b x [] h all = refl
has-outside a b x (y ∷ ys) h all = ground (arith, all.0, has-outside a b x ys h all.1)

Distinct-append :
    (a b c : ℕ) (xs ys : List ℕ)
    → All (IsBetween a b) xs
    → All (IsBetween b c) ys
    → Distinct xs
    → Distinct ys
    → Distinct (xs ++ ys)
Distinct-append a b c [] ys hx hy dx dy = dy
Distinct-append a b c (x ∷ xs) ys hx hy dx dy = (
  ground (arith, has-append x xs ys, dx.0, has-outside b c x ys (inl hx.0.1) hy),
  Distinct-append a b c xs ys hx.1 hy dx.1 dy,
)

-- The addresses of `n` are distinct and were given out from `a` on and before `b`, and its pipes
-- have two operands or more.
pub record HasShape (a b : ℕ) (n : Node) : Type 0 where
  pub ordered : a ≤ b
  pub between : All (IsBetween a b) (addresses n)
  pub distinct : Distinct (addresses n)
  pub pipes : HasPipes n

pub record HaveShape (a b : ℕ) (ns : Nodes) : Type 0 where
  pub ordered : a ≤ b
  pub between : All (IsBetween a b) (addresses_of_nodes ns)
  pub distinct : Distinct (addresses_of_nodes ns)
  pub pipes : HavePipes ns

pub nil-HaveShape : (a : ℕ) → HaveShape a a nil
unfolding addresses_of_nodes HavePipes
nil-HaveShape a = record { ordered = omega arith; between = tt; distinct = tt; pipes = tt }

pub cons-HaveShape :
    (a b c : ℕ) (n : Node) (ns : Nodes)
    → HasShape a b n
    → HaveShape b c ns
    → HaveShape a c (cons n ns)
unfolding addresses_of_nodes HavePipes
cons-HaveShape a b c n ns h t = record {
  ordered = omega (arith, h.ordered, t.ordered);
  between =
      All-append (IsBetween a c) (addresses n) (addresses_of_nodes ns)
        (widen a b a c (addresses n) (omega arith) t.ordered h.between)
        (widen b c a c (addresses_of_nodes ns) h.ordered (omega arith) t.between);
  distinct =
      Distinct-append a b c (addresses n) (addresses_of_nodes ns) h.between t.between h.distinct
        t.distinct;
  pipes = (h.pipes, t.pipes);
}

pipes-operands :
    (f : NodeFields) (op : Operator) (a : Option Appender) (ns : Nodes)
    → 1 < length (to_list ns)
    → HavePipes ns
    → HasPipes (operands f op a ns)
unfolding HasPipes
pipes-operands f pipe_node a nil h p = absurd (omega arith)
pipes-operands f pipe_node a (cons n nil) h p = absurd (omega arith)
pipes-operands f pipe_node a (cons n (cons m ns)) h p = (tt, p)
pipes-operands f and_node a ns h p = p
pipes-operands f or_node a ns h p = p
pipes-operands f semicolon_node a ns h p = p

pub operands-HasShape :
    (b : ℕ) (f : NodeFields) (op : Operator) (a : Option Appender) (ns : Nodes)
    → 1 < length (to_list ns)
    → HaveShape (f.address + 1) b ns
    → HasShape f.address b (operands f op a ns)
unfolding addresses
operands-HasShape b f op a ns h t = record {
  ordered = omega (arith, t.ordered);
  between = (
    (omega arith, omega (arith, t.ordered)),
    widen (f.address + 1) b f.address b (addresses_of_nodes ns) (omega arith) (omega arith)
        t.between,
  );
  distinct = (
    has-outside (f.address + 1) b f.address (addresses_of_nodes ns) (inl (omega arith)) t.between,
    t.distinct,
  );
  pipes = pipes-operands f op a ns h t.pipes;
}

pub with_redirects-HasShape :
    (a b : ℕ) (split : RedirectSplit) (n : Node)
    → HasShape a b n
    → HasShape a b (with_redirects split n)
unfolding addresses HasPipes redirect_streams_of_node_to_files
with_redirects-HasShape a b split (executable f e) h = record {
  ordered = h.ordered;
  between = h.between;
  distinct = h.distinct;
  pipes = h.pipes;
}
with_redirects-HasShape a b split (operands f op x ns) h = record {
  ordered = h.ordered;
  between = h.between;
  distinct = h.distinct;
  pipes = pipes_kept f op x ns h.pipes;
}
  where
    pipes_kept :
        (g : NodeFields) (o : Operator) (y : Option Appender) (ms : Nodes)
        → HasPipes (operands g o y ms)
        → HasPipes (operands (redirect_streams_of_node_to_files g split) o y ms)
    pipes_kept g pipe_node y ms p = p
    pipes_kept g and_node y ms p = p
    pipes_kept g or_node y ms p = p
    pipes_kept g semicolon_node y ms p = p

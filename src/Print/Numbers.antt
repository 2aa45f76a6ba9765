-- ===== src/Print/Numbers.antt =====
-- The numbers that the text printer gives the executables (src/print_results/txt.c).
use command_stats.Common.{◌+◌, ◌≡◌, refl, ap, ◌∙◌, List, [], ◌∷◌, Option, none, some, arith}
use command_stats.Structs.Node.{
  NodeFields, ExecutableNode, ExecutionResult, Node, executable, operands, Nodes, nil, cons,
}
use command_stats.Structs.Walk.{count_executables_in_tree, count_executables_in_nodes}
use command_stats.Print.Attributes.{
  Attribute, invalid_attribute, pid, exit_code, execution_failed, start_time, end_time, total_time,
  user_cpu_time, system_cpu_time, maximum_resident_segment_size,
}
use command_stats.Print.Printer.{Library, Context}
use command_stats.Print.Txt.{
  txt_printer, txt_executable_head, txt_executable_foot, txt_head, txt_foot,
}
use command_stats.Print.Results.{
  print_attribute, print_attributes, print_result, print_executable_node, print_results_rec,
  print_results_nodes, print_results_root,
}

attribute-subindex :
    (lib : Library) (a : Attribute) (f : NodeFields) (r : ExecutionResult) (c : Context)
    → (print_attribute (txt_printer lib) a f r c).command_subindex ≡ c.command_subindex
unfolding print_attribute
attribute-subindex lib pid f r c = refl
attribute-subindex lib exit_code f r c = refl
attribute-subindex lib execution_failed f r c = refl
attribute-subindex lib start_time f r c = refl
attribute-subindex lib end_time f r c = refl
attribute-subindex lib total_time f r c = refl
attribute-subindex lib user_cpu_time f r c = refl
attribute-subindex lib system_cpu_time f r c = refl
attribute-subindex lib maximum_resident_segment_size f r c = refl
attribute-subindex lib invalid_attribute f r c = refl

attributes-subindex :
    (lib : Library) (attrs : List Attribute) (f : NodeFields) (r : ExecutionResult) (c : Context)
    → (print_attributes (txt_printer lib) attrs f r c).command_subindex ≡ c.command_subindex
unfolding print_attributes
attributes-subindex lib [] f r c = refl
attributes-subindex lib (a ∷ attrs) f r c =
    attributes-subindex lib attrs f r _ ∙ attribute-subindex lib a f r c

result-subindex :
    (lib : Library) (f : NodeFields) (r : Option ExecutionResult) (c : Context)
    → (print_result (txt_printer lib) f r c).command_subindex ≡ c.command_subindex
unfolding print_result
result-subindex lib f none c = refl
result-subindex lib f (some r) c = attributes-subindex lib c.attributes f r c

executable-subindex :
    (lib : Library) (f : NodeFields) (e : ExecutableNode) (c : Context)
    → (print_executable_node (txt_printer lib) f e c).command_subindex ≡ c.command_subindex + 1
unfolding print_executable_node txt_executable_head txt_executable_foot
executable-subindex lib f e c = result-subindex lib f f.result _ ∙ omega arith

mutual
  unfolding print_results_rec print_results_nodes count_executables_in_tree
      count_executables_in_nodes

  rec-subindex :
      (lib : Library) (n : Node) (c : Context)
      → (print_results_rec (txt_printer lib) n c).command_subindex
        ≡ c.command_subindex + count_executables_in_tree n
  rec-subindex lib (executable f e) c = executable-subindex lib f e c
  rec-subindex lib (operands f op a ns) c = nodes-subindex lib ns c

  nodes-subindex :
      (lib : Library) (ns : Nodes) (c : Context)
      → (print_results_nodes (txt_printer lib) ns c).command_subindex
        ≡ c.command_subindex + count_executables_in_nodes ns
  nodes-subindex lib nil c = omega arith
  nodes-subindex lib (cons n ns) c =
      nodes-subindex lib ns (print_results_rec (txt_printer lib) n c)
      ∙ ap (λ k. k + count_executables_in_nodes ns) (rec-subindex lib n c)
      ∙ omega arith

-- With the text printer, as many numbers are given out for a tree as the tree has executables, run
-- or not: the next number to give is the first one plus their count.
print_results_root-numbers :
    (lib : Library) (root : Node) (c : Context)
    → (print_results_root (txt_printer lib) root c).command_subindex
      ≡ c.command_subindex + count_executables_in_tree root
unfolding print_results_root txt_head txt_foot
print_results_root-numbers lib root c = rec-subindex lib root _

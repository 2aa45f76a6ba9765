-- ===== src/Print/Rows.antt =====
-- The rows that the CSV printer writes (src/print_results/csv.c,
-- src/print_results/print_results.c).
use command_stats.Common.{
  ◌≡◌, refl, sym, ap, ◌∙◌, true, false, List, [], ◌∷◌, ◌++◌, Option, none, some, map, append_assoc,
  append-nil, if◌then◌else◌,
}
use command_stats.Common.Int.{pos}
use command_stats.Common.Text.{Text, codes}
use command_stats.Structs.Node.{
  NodeFields, ExecutableNode, ExecutionResult, Node, executable, operands, Nodes, nil, cons,
}
use command_stats.Regex.Split.{join}
use command_stats.Print.Attributes.{
  Attribute, invalid_attribute, pid, exit_code, execution_failed, start_time, end_time, total_time,
  user_cpu_time, system_cpu_time, maximum_resident_segment_size,
}
use command_stats.Print.Printer.{Library, Context, shown}
use command_stats.Print.Duration.{print_total_time, print_timeval}
use command_stats.Print.Csv.{
  csv_printer, shown_name, my_ctime, print_csv_value, separate_argument, csv_names, csv_head,
  csv_executable_head, csv_executed_to_string, csv_executable_foot, csv_foot, end_row,
}
use command_stats.Print.Results.{
  print_attribute, print_attributes, print_result, print_executable_node, print_results_rec,
  print_results_nodes, print_results_root,
}

-- The fields that a row has for an attribute: one, but for the invalid attribute.
abbrev pub cell : Library → Attribute → NodeFields → ExecutionResult → List Text
cell lib pid f r = lib.decimal (pos f.pid) ∷ []
cell lib exit_code f r =
    shown lib (λ status. lib.decimal (pos (lib.wexitstatus status))) r.exit_code ∷ []
cell lib execution_failed f r = (if r.invocation_failed then codes "true" else codes "false") ∷ []
cell lib start_time f r = my_ctime (lib.ctime r.start_time.tv_sec) ∷ []
cell lib end_time f r = shown lib (λ end. my_ctime (lib.ctime end.tv_sec)) r.end_time ∷ []
cell lib total_time f r = print_total_time lib r ∷ []
cell lib user_cpu_time f r = shown lib (print_timeval lib) r.user_cpu_time_used ∷ []
cell lib system_cpu_time f r = shown lib (print_timeval lib) r.system_cpu_time_used ∷ []
cell lib maximum_resident_segment_size f r =
    shown lib (λ size. lib.decimal (pos size)) r.maximum_resident_set_size ∷ []
cell lib invalid_attribute f r = []

unfoldable cells : Library → List Attribute → NodeFields → ExecutionResult → List Text
cells lib [] f r = []
cells lib (attribute ∷ rest) f r = cell lib attribute f r ++ cells lib rest f r

-- The fields behind the path: none, if the node was not run.
unfoldable result_cells : Library → List Attribute → NodeFields → Option ExecutionResult → List Text
unfolding cells
result_cells lib attributes f none = []
result_cells lib attributes f (some r) = cells lib attributes f r

-- A line of fields with commas between.
unfoldable pub row : List Text → Text
unfolding join
row ts = join (codes ",") ts ++ codes "\n"

-- The rows of the executables of a tree, from left to right.
unfoldable mutual
  unfolding result_cells row

  pub rows : Library → List Attribute → Node → Text
  rows lib attributes (executable f e) = row (e.path ∷ result_cells lib attributes f f.result)
  rows lib attributes (operands f op a ns) = rows_of_nodes lib attributes ns

  pub rows_of_nodes : Library → List Attribute → Nodes → Text
  rows_of_nodes lib attributes nil = []
  rows_of_nodes lib attributes (cons n ns) =
      rows lib attributes n ++ rows_of_nodes lib attributes ns

-- What stands behind the first field of a line.
unfoldable more : List Text → Text
more [] = []
more (t ∷ ts) = codes "," ++ (t ++ more ts)

join-more : (t : Text) (ts : List Text) → join (codes ",") (t ∷ ts) ≡ t ++ more ts
unfolding join more
join-more t [] = sym (append-nil t)
join-more t (u ∷ ts) = ap (λ x. t ++ (codes "," ++ x)) (join-more u ts)

more-append : (ts us : List Text) → more (ts ++ us) ≡ more ts ++ more us
unfolding more
more-append [] us = refl
more-append (t ∷ ts) us =
    ap (λ x. codes "," ++ x)
      (ap (λ x. t ++ x) (more-append ts us) ∙ sym (append_assoc t (more ts) (more us)))

-- The context `c` with a text written to it, inside a line and at the start of one.
abbrev inside : Context → Text → Context
inside c t = record c { out = c.out ++ t; previous_value = true }

abbrev pub line : Context → Text → Context
line c t = record c { out = c.out ++ t; previous_value = false }

value-inside :
    (c : Context) (t u : Text) → print_csv_value u (inside c t) ≡ inside c (t ++ more (u ∷ []))
unfolding print_csv_value separate_argument more
value-inside c t u =
    ap (λ x. record c { out = x; previous_value = true })
      (append_assoc (c.out ++ t) (codes ",") u
        ∙ append_assoc c.out t (codes "," ++ u)
        ∙ ap (λ x. c.out ++ (t ++ (codes "," ++ x))) (sym (append-nil u)))

invalid-inside : (c : Context) (t : Text) → inside c t ≡ inside c (t ++ more [])
unfolding more
invalid-inside c t = ap (inside c) (sym (append-nil t))

attribute-inside :
    (lib : Library) (a : Attribute) (f : NodeFields) (r : ExecutionResult) (c : Context) (t : Text)
    → print_attribute (csv_printer lib) a f r (inside c t) ≡ inside c (t ++ more (cell lib a f r))
unfolding print_attribute
attribute-inside lib pid f r c t = value-inside c t _
attribute-inside lib exit_code f r c t = value-inside c t _
attribute-inside lib execution_failed f r c t = value-inside c t _
attribute-inside lib start_time f r c t = value-inside c t _
attribute-inside lib end_time f r c t = value-inside c t _
attribute-inside lib total_time f r c t = value-inside c t _
attribute-inside lib user_cpu_time f r c t = value-inside c t _
attribute-inside lib system_cpu_time f r c t = value-inside c t _
attribute-inside lib maximum_resident_segment_size f r c t = value-inside c t _
attribute-inside lib invalid_attribute f r c t = invalid-inside c t

regroup : (t : Text) (ts us : List Text) → (t ++ more ts) ++ more us ≡ t ++ more (ts ++ us)
regroup t ts us = append_assoc t (more ts) (more us) ∙ ap (λ x. t ++ x) (sym (more-append ts us))

attributes-inside :
    (lib : Library) (attrs : List Attribute) (f : NodeFields) (r : ExecutionResult) (c : Context)
    (t : Text)
    → print_attributes (csv_printer lib) attrs f r (inside c t)
      ≡ inside c (t ++ more (cells lib attrs f r))
unfolding print_attributes cells
attributes-inside lib [] f r c t = invalid-inside c t
attributes-inside lib (a ∷ attrs) f r c t =
    ap (print_attributes (csv_printer lib) attrs f r) (attribute-inside lib a f r c t)
    ∙ attributes-inside lib attrs f r c (t ++ more (cell lib a f r))
    ∙ ap (inside c) (regroup t (cell lib a f r) (cells lib attrs f r))

result-inside :
    (lib : Library) (f : NodeFields) (r : Option ExecutionResult) (c : Context) (t : Text)
    → print_result (csv_printer lib) f r (inside c t)
      ≡ inside c (t ++ more (result_cells lib c.attributes f r))
unfolding print_result result_cells
result-inside lib f none c t = invalid-inside c t
result-inside lib f (some r) c t = attributes-inside lib c.attributes f r c t

end_row-row :
    (c : Context) (s t : Text) (ts : List Text)
    → end_row (inside c ((s ++ t) ++ more ts)) ≡ line c (s ++ row (t ∷ ts))
unfolding end_row row
end_row-row c s t ts =
    ap (λ x. record c { out = x; previous_value = false })
      (append_assoc c.out ((s ++ t) ++ more ts) (codes "\n")
        ∙ ap (λ x. c.out ++ (x ++ codes "\n"))
            (append_assoc s t (more ts) ∙ ap (λ x. s ++ x) (sym (join-more t ts)))
        ∙ ap (λ x. c.out ++ x) (append_assoc s (join (codes ",") (t ∷ ts)) (codes "\n")))

first-inside : (c : Context) (s t : Text) → print_csv_value t (line c s) ≡ inside c (s ++ t)
unfolding print_csv_value separate_argument
first-inside c s t = ap (λ x. record c { out = x; previous_value = true }) (append_assoc c.out s t)

executable-row :
    (lib : Library) (f : NodeFields) (e : ExecutableNode) (c : Context) (t : Text)
    → print_executable_node (csv_printer lib) f e (line c t)
      ≡ line c (t ++ row (e.path ∷ result_cells lib c.attributes f f.result))
unfolding print_executable_node csv_executable_head csv_executed_to_string csv_executable_foot
executable-row lib f e c t =
    ap (λ x. end_row (print_result (csv_printer lib) f f.result x)) (first-inside c t e.path)
    ∙ ap end_row (result-inside lib f f.result c (t ++ e.path))
    ∙ end_row-row c t e.path (result_cells lib c.attributes f f.result)

mutual
  unfolding print_results_rec print_results_nodes rows rows_of_nodes

  rec-rows :
      (lib : Library) (n : Node) (c : Context) (t : Text)
      → print_results_rec (csv_printer lib) n (line c t) ≡ line c (t ++ rows lib c.attributes n)
  rec-rows lib (executable f e) c t = executable-row lib f e c t
  rec-rows lib (operands f op a ns) c t = nodes-rows lib ns c t

  nodes-rows :
      (lib : Library) (ns : Nodes) (c : Context) (t : Text)
      → print_results_nodes (csv_printer lib) ns (line c t)
        ≡ line c (t ++ rows_of_nodes lib c.attributes ns)
  nodes-rows lib nil c t = ap (line c) (sym (append-nil t))
  nodes-rows lib (cons n ns) c t =
      ap (print_results_nodes (csv_printer lib) ns) (rec-rows lib n c t)
      ∙ nodes-rows lib ns c (t ++ rows lib c.attributes n)
      ∙ ap (line c) (append_assoc t (rows lib c.attributes n) (rows_of_nodes lib c.attributes ns))

names-inside :
    (lib : Library) (attrs : List Attribute) (c : Context) (t : Text)
    → csv_names lib attrs (inside c t) ≡ inside c (t ++ more (map (shown_name lib) attrs))
unfolding csv_names
names-inside lib [] c t = invalid-inside c t
names-inside lib (a ∷ attrs) c t =
    ap (csv_names lib attrs) (value-inside c t (shown_name lib a))
    ∙ names-inside lib attrs c (t ++ more (shown_name lib a ∷ []))
    ∙ ap (inside c) (regroup t (shown_name lib a ∷ []) (map (shown_name lib) attrs))

head-row :
    (lib : Library) (c : Context)
    → csv_head lib c ≡ line c (row (codes "executable_name" ∷ map (shown_name lib) c.attributes))
unfolding csv_head
head-row lib c =
    ap (λ x. end_row (csv_names lib c.attributes x))
      (ap
          (λ o.
            print_csv_value (codes "executable_name")
              (record c { out = o; previous_value = false }))
          (sym (append-nil c.out))
        ∙ first-inside c [] (codes "executable_name"))
    ∙ ap end_row (names-inside lib c.attributes c (codes "executable_name"))
    ∙ end_row-row c [] (codes "executable_name") (map (shown_name lib) c.attributes)

-- With the CSV printer, what is written for a tree is a line of the column names, then one line for
-- each executable from left to right: its path and, if it was run, one field for each valid
-- attribute asked for, in the order asked for, with commas between and no comma at either end.
pub print_results_root-rows :
    (lib : Library) (root : Node) (c : Context)
    → (print_results_root (csv_printer lib) root c).out
      ≡ c.out
        ++ (row (codes "executable_name" ∷ map (shown_name lib) c.attributes)
            ++ rows lib c.attributes root)
unfolding print_results_root csv_foot
print_results_root-rows lib root c =
    ap (λ x. (print_results_rec (csv_printer lib) root x).out) (head-row lib c)
    ∙ ap (λ x. x.out)
        (rec-rows lib root c (row (codes "executable_name" ∷ map (shown_name lib) c.attributes)))

-- ===== src/Print/Html.antt =====
-- src/print_results/html.c: the printer of a page with nested boxes.
use command_stats.Common.{
  ℕ, zero, suc, Bool, List, [], ◌∷◌, ◌++◌, Option, none, some, if◌then◌else◌,
}
use command_stats.Common.Int.{pos}
use command_stats.Common.Text.{Text, codes}
use command_stats.Structs.Node.{Operator, pipe_node, and_node, or_node, semicolon_node}
use command_stats.Print.Printer.{
  Library, Context, put, Printer, shown, ContextToString, OperatorToString, ExecutableToString,
  ResultToString,
}
use command_stats.Print.Duration.{print_total_time, print_timeval}

abbrev pub style : Text
style =
    codes "<style>.node {\n  border: 1px solid black;\n  padding: 4px;\n}\n"
    ++ (codes
          ".operands {\n  display: flex;\n  flex-direction: row;\n  justify-content: space-around;\n}\n"
        ++ (codes
              ".executable {\n  border: 1px solid blue;\n}.arguments {\n  padding-bottom: 8px;\n}\n"
            ++ codes
                ".arguments > span {\n  border: 1px solid green;\n  margin: 4px;\n  padding: 4px;\n}\n</style>"))

unfoldable pub html_head : ContextToString
html_head context =
    put
      (codes "<html><head><title>"
        ++ (context.command
            ++ (codes "</title>"
                ++ (style
                    ++ (codes "</head><body><h1>Command: "
                        ++ (context.command ++ codes "</h1>"))))))
      context

abbrev pub operand_name : Operator → Text
operand_name and_node = codes "And"
operand_name or_node = codes "Or"
operand_name semicolon_node = codes "Semicolon"
operand_name pipe_node = codes "Pipe"

unfoldable pub html_enter_operand_node : OperatorToString
html_enter_operand_node op =
    put (
      codes "<div class=\"node\"><h2>"
      ++ (operand_name op ++ codes "</h2><div class=\"operands\">"))

-- The loop over the arguments; behind the entries of argv that are written,
-- what is printed is what the C library makes of an unwritten one.
unfoldable pub html_arguments : Library → ℕ → List Text → Text
html_arguments lib zero argv = []
html_arguments lib (suc count) [] =
    codes "<span>" ++ (lib.unwritten ++ (codes "</span>" ++ html_arguments lib count []))
html_arguments lib (suc count) (argument ∷ argv) =
    codes "<span>" ++ (argument ++ (codes "</span>" ++ html_arguments lib count argv))

unfoldable pub html_executable_head : Library → ExecutableToString
unfolding html_arguments
html_executable_head lib f e = put (
    codes "<div class=\"node executable\"><h3>"
    ++ (e.path
        ++ (codes "</h3>"
            ++ (codes "<div class=\"arguments\">Args: "
                ++ (html_arguments lib e.argc e.argv ++ codes "</div>")))))

-- fprintf (context->out, "<p><label><value></p>")
abbrev pub html_line : Text → Text → Context → Context
html_line label value = put (codes "<p>" ++ (label ++ (value ++ codes "</p>")))

-- the checkbox, its `checked` and its label
abbrev pub checkbox : Bool → Text → Context → Context
checkbox checked label = put (
    codes "<div><input type=\"checkbox\" name=\"Executed\" onclick=\"return false;\" "
    ++ ((if checked then codes "checked" else [])
        ++ (codes " /><label>" ++ (label ++ codes "</label></div>"))))

abbrev pub is_some {ℓ} : {A : Type ℓ} → Option A → Bool
is_some none = Bool.false
is_some (some a) = Bool.true

abbrev pub html_executed_to_string : ExecutableToString
html_executed_to_string f e = checkbox (is_some f.result) (codes "Executed")

abbrev pub html_invocation_failed_to_string : ResultToString
html_invocation_failed_to_string f r =
    checkbox (if r.invocation_failed then Bool.false else Bool.true) (codes "Executable invocated")

abbrev pub html_pid_to_string : Library → ResultToString
html_pid_to_string lib f r = html_line (codes "PID: ") (lib.decimal (pos f.pid))

abbrev pub html_exit_code_to_string : Library → ResultToString
html_exit_code_to_string lib f r =
    html_line (codes "Exit: ")
      (shown lib (λ status. lib.decimal (pos (lib.wexitstatus status))) r.exit_code)

abbrev pub html_start_time_to_string : Library → ResultToString
html_start_time_to_string lib f r = html_line (codes "Start time: ") (lib.ctime r.start_time.tv_sec)

abbrev pub html_end_time_to_string : Library → ResultToString
html_end_time_to_string lib f r =
    html_line (codes "End time: ") (shown lib (λ end. lib.ctime end.tv_sec) r.end_time)

abbrev pub html_total_time_to_string : Library → ResultToString
html_total_time_to_string lib f r = html_line (codes "Total time: ") (print_total_time lib r)

abbrev pub html_user_cpu_time_to_string : Library → ResultToString
html_user_cpu_time_to_string lib f r =
    html_line (codes "User CPU time: ") (shown lib (print_timeval lib) r.user_cpu_time_used)

abbrev pub html_system_cpu_time_to_string : Library → ResultToString
html_system_cpu_time_to_string lib f r =
    html_line (codes "System CPU time: ") (shown lib (print_timeval lib) r.system_cpu_time_used)

abbrev pub html_maximum_resident_set_size_to_string : Library → ResultToString
html_maximum_resident_set_size_to_string lib f r =
    html_line (codes "Resident Segment Size: ")
      (shown lib (λ size. lib.decimal (pos size)) r.maximum_resident_set_size)

unfoldable pub html_executable_foot : ExecutableToString
html_executable_foot f e = put (codes "</div>")

unfoldable pub html_exit_operand_node : OperatorToString
html_exit_operand_node op = put (codes "</div></div>")

unfoldable pub html_foot : ContextToString
html_foot = put (codes "</body></html>")

abbrev pub html_printer : Library → Printer
html_printer lib = record {
  head = html_head;
  executable_head = html_executable_head lib;
  enter_operand_node = some html_enter_operand_node;
  executed_to_string = html_executed_to_string;
  invocation_failed_to_string = html_invocation_failed_to_string;
  pid_to_string = html_pid_to_string lib;
  exit_code_to_string = html_exit_code_to_string lib;
  start_time_to_string = html_start_time_to_string lib;
  end_time_to_string = html_end_time_to_string lib;
  total_time_to_string = html_total_time_to_string lib;
  user_cpu_time_to_string = html_user_cpu_time_to_string lib;
  system_cpu_time_to_string = html_system_cpu_time_to_string lib;
  maximum_resident_set_size_to_string = html_maximum_resident_set_size_to_string lib;
  executable_foot = html_executable_foot;
  exit_operand_node = some html_exit_operand_node;
  foot = html_foot;
}

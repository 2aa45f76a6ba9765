-- ===== src/Tests/Directories.antt =====
-- cd src; make; cd lib; test
use command_stats.Common.{◌≡◌, refl, List, [], ◌∷◌, none, arith, All, false}
use command_stats.Common.Distinct.{Distinct}
use command_stats.Common.Outcome.{done}
use command_stats.Common.Text.{codes, text_eq}
use command_stats.Structs.Node.{ExecutableNode, operands, semicolon_node}
use command_stats.Builtin.Cd.{is_pipe, apply_cd_builtin}
use command_stats.Builtin.Cd.Commands.{Command, commands, keys, enter, IsCounted}
use command_stats.Builtin.Cd.Sequence.{apply_cd_builtin-enter}
use command_stats.Tests.Samples.{fields_at, make_command, test_command}

abbrev cd_src : ExecutableNode
cd_src = record {
  path = codes "cd";
  argv = codes "cd" ∷ codes "src" ∷ [];
  argc = 2;
  null_index = 2;
  cd = [];
}

abbrev cd_lib : ExecutableNode
cd_lib = record {
  path = codes "cd";
  argv = codes "cd" ∷ codes "lib" ∷ [];
  argc = 2;
  null_index = 2;
  cd = [];
}

abbrev line : List Command
line =
    (fields_at 1, cd_src)
    ∷ (fields_at 2, make_command)
    ∷ (fields_at 3, cd_lib)
    ∷ (fields_at 4, test_command)
    ∷ []

semicolon_is_no_pipe : is_pipe semicolon_node ≡ false
unfolding is_pipe
semicolon_is_no_pipe = refl

line-Distinct : Distinct (keys line)
line-Distinct = (refl, (refl, (refl, (refl, tt))))

line-IsCounted : All IsCounted line
line-IsCounted = omega arith

apply_cd_builtin-enter_example :
    apply_cd_builtin 9 (operands (fields_at 0) semicolon_node none (commands line))
    ≡ done (operands (fields_at 0) semicolon_node none (commands (enter [] line)))
apply_cd_builtin-enter_example =
    apply_cd_builtin-enter 9 (fields_at 0) semicolon_node none line semicolon_is_no_pipe
      (omega arith) line-Distinct line-IsCounted

-- those commands
line_entered :
    enter [] line
    ≡ (fields_at 2, record make_command { cd = codes "src" ∷ [] })
      ∷ (fields_at 4, record test_command { cd = codes "src" ∷ codes "lib" ∷ [] })
      ∷ []
unfolding enter text_eq
line_entered = refl

-- ===== src/Lib.antt =====
-- command_stats runs a shell command and logs statistics of every program that the command starts.
-- The paths below are from the repository's root.
--
-- The program's parts, and the files here that model them:
--
-- * The command tree (src/structs/node.h, src/structs/node.c, src/structs/stream.h,
--   src/structs/stream.c): Structs. The union `Node` is two data types in a mutual block; a pointer
--   to a node is the number `address`, and memory that has not been written is `none`. Structs/Walk
--   has the functions of node.c by their names; Structs/Father, Structs/Found, Structs/Siblings and
--   Structs/Clock are about what they compute.
-- * Regular expressions (src/common/my_regex.c): Regex. The C library's `regexec` is an argument,
--   with what POSIX says of it for the patterns in question as hypotheses (Regex/Literal,
--   Regex/PastTheEnd). Texts are lists of bytes without the closing zero, and what stands in memory
--   behind a text is an argument where the code can read it.
-- * The parser (src/parse/parse.c): Parse. Parse/Brackets hides and removes brackets,
--   Parse/Operators splits at an operator, Parse/Redirect takes redirections off the end,
--   Parse/Executable reads arguments, and Parse/Tree is the recursion over the
--   operators, with the shape of what it returns in Parse/Tree/Shape. Parse/Lifetime compiles and
--   frees the expressions of priority_map, with a heap of the blocks that malloc gives for them; the
--   parser itself asks regexec by the pattern. A second regfree of one expression, and a strcat
--   past the buffer of an argument, are faults, the former unless the C library bears it.
-- * The builtins (src/parse/builtin.c): Builtin. Builtin/Cd moves the directories of `cd`, which
--   Builtin/Cd/Sequence describes by recursion on the commands; Builtin/Wire gives every node its
--   streams. A pipe is the number under which it was allocated; Builtin/Wire/Pipes counts the
--   processes at its ends.
-- * The execution (src/execute/execute.c), in the parent process: Execute. Execute/System is the
--   state of the process and the answers of the operating system, which are functions of how often
--   the system has been asked. Execute/Start starts nodes, Execute/Manage waits for them;
--   Execute/Counting, Execute/Failed, Execute/Verdict, Execute/Root, Execute/Waiting and
--   Execute/Single are about what they do, and Execute/Flat follows an operator whose operands are
--   commands, a pipe or another, from its start to its exit code.
-- * The printers (src/print_results, and the times of src/common/common.c): Print. A printer is a
--   record of functions on the context, as in printer.h; what is printed is text in the context.
--   The conversions of printf and ctime are arguments. Print/Hash is the index of a command, in a
--   `long` of 64 bits.
-- * The children of the execution: Execute/Child is the process of an executable up to execvp, with
--   its directory and its table of descriptors, and Execute/Appender the process that gathers the
--   operands' outputs. Copy is copy_stream of src/common/common.c, which the appender and the
--   daemon share.
-- * The daemon that owns the log files (src/daemon): Daemon. Daemon/Message is the message of a
--   booking and its buffer, Daemon/Lock how a run finds or starts the daemon, Daemon/Serve the
--   daemon's loop and its answers, Daemon/Client the run's side of a booking, and Daemon/Life what
--   a daemon makes and removes, with the lock file by its inode and a queue for each key that ftok
--   gives. Syscalls has the wrappers of src/common/syscalls_wrappers.c, by what the system has
--   returned.
-- * The command line and the course of the program (src/main.c): Main.
--
-- The parser makes a tree, the builtins change it, the execution fills in the results, and the
-- printers read them: `create_tree_from_string` and `run_command` (Main) compose them as main.c
-- does. Between the execution and the printers a run books its log: `book_and_obtain_log_fd`
-- (Daemon/Client) sends the message that `handle_message` (Daemon/Serve) reads, and what is printed
-- goes through the pipe that the daemon copies. Common has the shared names, and Common/Outcome the
-- result of code that may exit, touch memory it must not, or run out of fuel. Tests has the theorems
-- at concrete inputs.
--
-- Fuel: the parser's splits are given more than the bytes of their text and the number of the texts
-- behind it: a pattern that never matches the empty text takes a byte in every round, and
-- "($)" takes one round for each text. create_node_from_string needs as much as the depth of its
-- recursion; the pieces of an operator that is found are shorter than the command, so that more than
-- the command's length is enough (Parse/Tree/Ends, with Regex/Ends, Parse/Redirect/Ends and
-- Parse/Executable/Ends). The loop over wait3 takes the number of its calls, since how often it
-- calls depends on the system. The handler of completed nodes climbs the tree, and takes the number
-- of its nodes.
--
-- The run waits for the daemon's signal on fuel, a second each; the daemon's loop is a function of
-- what msgrcv returns, and runs out of fuel where that list ends while it still waits.
--
-- Not modelled: the moments at which signal handlers are installed, reset and run (the signals that
-- arrive are arguments); runs that book at the same time; the descriptors and the file mask that
-- daemonize sets; the text of the help; the memory management but for the parser's expressions; the
-- closing of files by the daemon, and what is behind the streams of printf; the log; the exercises
-- and the tests of the repository. Integers are unbounded but in Print/Hash, since the code counts
-- arguments, nodes and pipes, of which the memory holds fewer than an int. The number of seconds in
-- Print/Duration is one that fits the ints that the source computes with.
pub mod Common
pub mod Structs
pub mod Syscalls
pub mod Regex
pub mod Copy
pub mod Parse
pub mod Builtin
pub mod Execute
pub mod Print
pub mod Daemon
pub mod Main
pub mod Tests

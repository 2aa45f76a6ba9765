-- ===== src/Main/Status.antt =====
-- The status with which the program ends (src/main.c).
use command_stats.Common.{ℕ, ◌+◌, ◌*◌, ◌<◌, ◌%◌, ◌≡◌, ◌≢◌, some, arith}
use command_stats.Common.Outcome.{done}
use command_stats.Structs.Stream.{Stream}
use command_stats.Structs.Node.{NodeFields, ExecutableNode, Node, executable}
use command_stats.Execute.System.{child, System, Machine}
use command_stats.Execute.Manage.{execute}
use command_stats.Execute.Single.{execute-reported}
use command_stats.Main.{main_return}

-- A command with streams is started by a fork that succeeds, and wait3 reports other processes `j`
-- times and then the command, with a status that holds its exit code `code` in the second byte. Then
-- the execution ends, and main returns for its root that status and not `code`: the low byte, which
-- is what the caller of the program sees, is 0 whatever the command's exit code was.
pub main_return-low_byte :
    (k j pid code : ℕ) (sys : System) (f : NodeFields) (e : ExecutableNode) (i o : Stream)
    → f.std_in ≡ some i
    → f.std_out ≡ some o
    → ((n : ℕ) → sys.fork_result n ≡ child pid)
    → j < k
    → ((n : ℕ) → n < j → (sys.wait3 (2 + n)).pid ≢ pid)
    → (sys.wait3 (2 + j)).pid ≡ pid
    → (sys.wait3 (2 + j)).status ≡ code * 256
    → (root : Node) × (m : Machine) × (execute k sys (executable f e) ≡ done (root, m))
      × (status : ℕ) × (main_return root ≡ done status)
      × (status ≡ code * 256)
      × (status % 256 ≡ 0)
unfolding main_return
main_return-low_byte k j pid code sys f e i o hi ho forks room strangers own exited =
    let (root, m, h, r) = execute-reported k j pid sys f e i o hi ho forks room strangers own in
    (root, m, h, (sys.wait3 (2 + j)).status, r, exited, omega (arith, exited))

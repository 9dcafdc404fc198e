-- ===== src/NamingServer/Handler.antt =====
-- `client_handler` of namingserver.c as a whole: the thread of one client, from its start to its end.
pub mod Within
pub mod Rounds
pub mod Keeps
mod Tests
use nfs_network_file_system.Prelude.{ℕ, zero, suc, List, [], ◌∷◌, length}
use nfs_network_file_system.Prelude.Bytes.{Bytes, codes}
use nfs_network_file_system.MapOperations.{CString}
use nfs_network_file_system.Io.{Run, Io, World, pure, ◌>>=◌, returning}
use nfs_network_file_system.Lru.{get_lru}
use nfs_network_file_system.NamingServer.{NamingServer, Key, literal}
use nfs_network_file_system.NamingServer.Client.{Round, next, quit, client_round}

-- The loop, for so many rounds at most. The rows of `ARGS` go from one round to the next.
unfoldable pub client_loop : ℕ → NamingServer → List Bytes → Io NamingServer
client_loop zero n args = λ w. Run.blocked w
client_loop (suc fuel) n args = do
  round ← client_round n args
  elim round [ next n' args' ↦ client_loop fuel n' args' | quit n' ↦ pure n' ]

-- Each round takes a reply at least, so the replies that are left bound the rounds.
unfoldable pub client_rounds : NamingServer → List Bytes → Io NamingServer
unfolding client_loop
client_rounds n args w = client_loop (suc (length w.replies)) n args w

-- The cache is asked for "/operations" first. `mem` is what stands at the cache's keys at that time, and
-- `stack` what stands in the rows of `ARGS`.
unfoldable pub client_handler : (Key → CString) → List Bytes → NamingServer → Io NamingServer
client_handler mem stack n = do
  (l, _) ← returning (get_lru mem n.lru (literal (codes "/operations")))
  client_rounds (record n { lru = l }) stack

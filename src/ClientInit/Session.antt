-- ===== src/ClientInit/Session.antt =====
-- `main` of clientinit.c from the connection on: the greeting, and the rounds of the user.
use nfs_network_file_system.Prelude.{List, [], ◌∷◌, Option}
use nfs_network_file_system.Prelude.Bytes.{Bytes, codes}
use nfs_network_file_system.Io.{naming, text, Run, Io, pure, ◌>>=◌, ◌>>◌, send, recv_text}
use nfs_network_file_system.ClientInit.{Shown, exiting, user_round}

-- Whether the loop is left.
unfoldable pub leaves : Shown → List Shown → Io (List Shown) → Io (List Shown)
leaves exiting shown more = pure shown
leaves other shown more = more

-- A round for each line that is typed, with the file that it reads if it is a WRITE; after the last one the
-- program waits for another.
unfoldable pub session : List Shown → List (Bytes × Option Bytes) → Io (List Shown)
unfolding leaves
session shown [] = λ w. Run.blocked w
session shown ((line, input) ∷ lines) = do
  result ← user_round line input
  leaves result (result ∷ shown) (session (result ∷ shown) lines)

-- The results, the last one first.
unfoldable pub client_main : List (Bytes × Option Bytes) → Io (List Shown)
unfolding session
client_main lines = do send naming (text (codes "c")); greeting ← recv_text; session [] lines

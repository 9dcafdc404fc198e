-- ===== src/StorageServer.antt =====
-- storageserverinit.c: the locks of a storage server, and the threads that read and write its files.
pub mod Ports
pub mod Transfer
pub mod Locking
pub mod Created
pub mod Connections
pub mod Startup
pub mod Listing
mod Tests
use nfs_network_file_system.Prelude.{
  ℕ, zero, suc, ◌+◌, ◌-◌, ◌<◌, ◌&&◌, Bool, true, false, not, List, [], ◌∷◌, ◌++◌, Option, none,
  some, ◌==◌, ltb, if◌then◌else◌, get_or, get_elem?, set, take, drop, length, replicate,
}
use nfs_network_file_system.Prelude.Bytes.{Bytes, codes, bytes_eq}
use nfs_network_file_system.Text.{slash, case_eq, basename}
use nfs_network_file_system.Io.{
  Socket, client, naming, text, number, chunk, World, Run, Io, pure, ◌>>=◌, ◌>>◌, returning, send,
  recv_text, exit_failure, crash,
}

abbrev pub chunk_size : ℕ
chunk_size = 512

abbrev pub max_associated_files : ℕ
max_associated_files = 100

-- The arrays `semaphores`, `semlocks` and `reader_count`. They are static: what `main` does not
-- initialise is zero.
pub record Locks : Type 0 where
  pub semaphores : List ℕ
  pub semlocks : List ℕ
  pub reader_count : List ℕ

abbrev pub no_locks : Locks
no_locks = record {
  semaphores = replicate max_associated_files 0;
  semlocks = replicate max_associated_files 0;
  reader_count = replicate max_associated_files 0;
}

-- `sem_wait` of an element: it does not return at zero, since a port's thread serves one connection
-- after the other and no other thread posts.
unfoldable pub sem_wait : List ℕ → ℕ → Io (List ℕ)
sem_wait sems i = elim (get_elem? sems i) [
  | none ↦ crash
  | some zero ↦ λ w. Run.blocked w
  | some (suc v) ↦ pure (set sems i v)
]

unfoldable pub sem_post : List ℕ → ℕ → Io (List ℕ)
sem_post sems i = elim (get_elem? sems i) [ none ↦ crash | some v ↦ pure (set sems i (v + 1)) ]

-- The first block of `read_file`: `reader_count` is at least 1 where it is tested.
unfoldable pub start_reading : Locks → ℕ → Io Locks
unfolding sem_wait sem_post
start_reading l i = do
  semlocks ← sem_wait l.semlocks i
  let readers = get_or l.reader_count i 0 + 1
  semaphores ← if ltb 0 readers then sem_wait l.semaphores i else pure l.semaphores
  semlocks' ← sem_post semlocks i
  pure (record {
    semaphores = semaphores;
    semlocks = semlocks';
    reader_count = set l.reader_count i readers;
  })

-- The last block.
unfoldable pub stop_reading : Locks → ℕ → Io Locks
unfolding sem_wait sem_post
stop_reading l i = do
  semlocks ← sem_wait l.semlocks i
  let readers = get_or l.reader_count i 0 - 1
  semaphores ← if readers == 0 then sem_post l.semaphores i else pure l.semaphores
  semlocks' ← sem_post semlocks i
  pure (record {
    semaphores = semaphores;
    semlocks = semlocks';
    reader_count = set l.reader_count i readers;
  })

-- The parts that `fread` gives, of `chunk_size` bytes but for the last.
unfoldable pub chunks_loop : ℕ → Bytes → List Bytes
chunks_loop zero content = []
chunks_loop (suc fuel) content =
    let rest = chunks_loop fuel (drop chunk_size content) in
    if length content == 0 then [] else take chunk_size content ∷ rest

unfoldable pub chunks : Bytes → List Bytes
unfolding chunks_loop
chunks content = chunks_loop (length content) content

-- Every chunk is acknowledged by the client.
unfoldable pub send_chunks : List Bytes → Io (Unit {0})
send_chunks [] = pure tt
send_chunks (c ∷ cs) = do
  send client (chunk c)
  answer ← recv_text
  if case_eq answer (codes "ACK") then send_chunks cs else exit_failure

-- `fopen` gives the content of the file, or fails.
unfoldable pub read_file : Locks → ℕ → Option Bytes → Io Locks
unfolding start_reading stop_reading send_chunks
read_file l i file = do
  l₁ ← start_reading l i
  elim file [
    | none ↦ exit_failure
    | some content ↦ do
      send_chunks (chunks content)
      send client (text (codes "STOP"))
      stop_reading l₁ i
  ]

-- The loop of `write_to_file`; the content so far. The end of the stream is no end of the loop: the
-- buffer is empty then.
unfoldable pub write_loop : ℕ → Bytes → Io Bytes
write_loop zero content = λ w. Run.blocked w
write_loop (suc fuel) content = do
  server_gets ← recv_text
  send client (text (codes "ACK"))
  if case_eq server_gets (codes "STOP")
      then pure content
      else write_loop fuel (content ++ server_gets)

-- Every round takes a reply, so the replies that are left bound the rounds.
abbrev pub write_all : Io Bytes
write_all w = write_loop (suc (length w.replies)) [] w

-- `fopen` for writing empties the file, before the semaphore is waited for.
unfoldable pub write_to_file : Locks → ℕ → Bool → Io (Locks × Bytes)
unfolding sem_wait sem_post
write_to_file l i opened =
    if opened
    then (do
      semaphores ← sem_wait l.semaphores i
      content ← write_all
      semaphores' ← sem_post semaphores i
      pure (record l { semaphores = semaphores' }, content))
    else exit_failure

-- The chunks go to the naming server with no answer in between.
unfoldable pub send_all : List Bytes → Io (Unit {0})
send_all [] = pure tt
send_all (c ∷ cs) = do send naming (chunk c); send_all cs

-- `send_file`, from the file's name on: that of the archive for a directory.
unfoldable pub send_file : Bytes → Option Bytes → Io (Unit {0})
unfolding send_all
send_file path file = do
  send naming (text (basename path))
  elim file [
    | none ↦ exit_failure
    | some content ↦ do send_all (chunks content); send naming (text (codes "STOP"))
  ]

-- `strcmp(server_gets + strlen(server_gets) - 7, ".tar.gz") == 0`; `none` where a shorter name makes it
-- read in front of the buffer.
unfoldable pub is_archive : Bytes → Option Bool
unfolding bytes_eq
is_archive name =
    if ltb (length name) 7
    then none
    else some (bytes_eq (drop (length name - 7) name) (codes ".tar.gz"))

unfoldable pub receive_loop : ℕ → Bytes → Io Bytes
receive_loop zero content = λ w. Run.blocked w
receive_loop (suc fuel) content = do
  server_gets ← recv_text
  if case_eq server_gets (codes "STOP")
      then pure content
      else receive_loop fuel (content ++ server_gets)

abbrev pub receive_all : Io Bytes
receive_all w = receive_loop (suc (length w.replies)) [] w

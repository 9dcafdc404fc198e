-- ===== src/ClientInit/Tests.antt =====
-- The theorems about READ and WRITE between client and storage server at a file of a few bytes.
use nfs_network_file_system.Prelude.{◌≡◌, refl, true, List, [], ◌∷◌, some}
use nfs_network_file_system.Prelude.Bytes.{Bytes, codes}
use nfs_network_file_system.Text.{case_eq}
use nfs_network_file_system.Io.{Socket, storage, Event, received, ok, c_text}
use nfs_network_file_system.NamingServer.{ack}
use nfs_network_file_system.StorageServer.{Locks, chunks, chunks_loop, read_file, write_to_file}
use nfs_network_file_system.StorageServer.Locking.{IsFree}
use nfs_network_file_system.StorageServer.Transfer.{concat, AllPlain}
use nfs_network_file_system.Io.Delivery.{delivered}
use nfs_network_file_system.ClientInit.{read_client_side, write_client_side}
use nfs_network_file_system.ClientInit.Transfer.{
  network, read_client_side-read_file, write_client_side-write_to_file,
}

abbrev one_lock : Locks
one_lock = record { semaphores = 1 ∷ []; semlocks = 1 ∷ []; reader_count = 0 ∷ [] }

one_lock-IsFree : IsFree one_lock 0
one_lock-IsFree = record {
  file_value = 0;
  lock_value = 0;
  file_open = refl;
  lock_open = refl;
  unread = refl;
}

abbrev abc : Bytes
abc = codes "abc"

abc-chunks : chunks abc ≡ abc ∷ []
unfolding chunks chunks_loop
abc-chunks = refl

abc_plain : AllPlain (chunks abc)
abc_plain = rw abc-chunks (unfold c_text in unfold case_eq in (refl, refl, tt))

abbrev peer_socket : Socket
peer_socket = storage (codes "127.0.0.1") 6000

read_client_side-read_file_example :
    (server : List Event) × (peer : List Event) × (printed : List Bytes) × (read_file one_lock 0
        (some abc)
        (network (delivered peer) [])
      ≡ ok one_lock (network (received ack ∷ []) server))
    × (read_client_side peer_socket (network (delivered server) [])
        ≡ ok (1, printed) (network [] peer))
    × (concat printed ≡ abc)
read_client_side-read_file_example =
    read_client_side-read_file one_lock 0 abc peer_socket one_lock-IsFree abc_plain

write_client_side-write_to_file_example :
    (server : List Event) × (peer : List Event) × (write_to_file one_lock 0 true
        (network (delivered peer) [])
      ≡ ok (one_lock, abc) (network [] server))
    × (write_client_side peer_socket (some abc) (network (delivered server) [])
        ≡ ok 1 (network (received ack ∷ []) peer))
write_client_side-write_to_file_example =
    write_client_side-write_to_file one_lock 0 abc peer_socket one_lock-IsFree abc_plain

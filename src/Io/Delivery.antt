-- ===== src/Io/Delivery.antt =====
-- How the messages that one program sends reach the `recv` calls of the other: a socket is taken to keep
-- their boundaries, so that each message is what one call gives.
use nfs_network_file_system.Prelude.{
  ℕ, ◌+◌, ◌*◌, ◌/◌, ◌%◌, ◌^◌, ◌<◌, ◌≡◌, ◌&&◌, ◌==◌, ==_refl, refl, arith, Bool, true, false, List,
  [], ◌∷◌, if◌then◌else◌,
}
use nfs_network_file_system.Prelude.Bytes.{Bytes, bytes_eq, bytes_eq_refl}
use nfs_network_file_system.Io.{
  Socket, client, storage, registrant, naming, Packet, text, number, chunk, Event, Reply, received,
  ok, recv, recv_reply, recv_int, recv_new_int, int_at,
}

-- The four bytes of an `int`, the lowest first.
abbrev pub int_bytes : ℕ → Bytes
int_bytes n = n % 256 ∷ n / 256 % 256 ∷ n / 65536 % 256 ∷ n / 16777216 % 256 ∷ []

abbrev pub delivered_packet : Packet → Reply
delivered_packet (text b) = received b
delivered_packet (number n) = received (int_bytes n)
delivered_packet (chunk b) = received b

abbrev pub delivered : List Event → List Reply
delivered [] = []
delivered (e ∷ es) = delivered_packet e.packet ∷ delivered es

-- Whether a message goes to the program at that address and port.
abbrev pub goes_to : Bytes → ℕ → Socket → Bool
goes_to ip port client = false
goes_to ip port (storage to_ip to_port) = bytes_eq to_ip ip && (to_port == port)
goes_to ip port registrant = false
goes_to ip port naming = false

pub goes_to_self : (ip : Bytes) (port : ℕ) → goes_to ip port (storage ip port) ≡ true
goes_to_self ip port = rw (bytes_eq_refl ip, ==_refl port) refl

-- What a log has for the storage server at that address and port.
abbrev pub for_storage : Bytes → ℕ → List Event → List Event
for_storage ip port [] = []
for_storage ip port (e ∷ es) =
    if goes_to ip port e.to then e ∷ for_storage ip port es else for_storage ip port es

abbrev pub is_client : Socket → Bool
is_client client = true
is_client (storage ip port) = false
is_client registrant = false
is_client naming = false

-- And for the client.
abbrev pub for_client : List Event → List Event
for_client [] = []
for_client (e ∷ es) = if is_client e.to then e ∷ for_client es else for_client es

abbrev pub is_naming : Socket → Bool
is_naming client = false
is_naming (storage ip port) = false
is_naming registrant = false
is_naming naming = true

-- And what the log of another program has for the naming server.
abbrev pub for_naming : List Event → List Event
for_naming [] = []
for_naming (e ∷ es) = if is_naming e.to then e ∷ for_naming es else for_naming es

-- A number below 2 ^ 32 arrives as it was sent.
pub recv_int-int_bytes :
    (old n : ℕ) (sends : List Bool) (rest : List Reply) (log : List Event)
    → n < 2 ^ 32
    → recv_int old (record { sends = sends; replies = received (int_bytes n) ∷ rest; log = log })
      ≡ ok n (record { sends = sends; replies = rest; log = log })
unfolding recv_int recv recv_reply
recv_int-int_bytes old n sends rest log small =
    let whole : n % 256
          + 256 * (n / 256 % 256 + 256 * (n / 65536 % 256 + 256 * (n / 16777216 % 256)))
        ≡ n =
      omega arith in
    rw whole refl

pub recv_new_int-int_bytes :
    (n : ℕ) (sends : List Bool) (rest : List Reply) (log : List Event)
    → n < 2 ^ 32
    → recv_new_int (record { sends = sends; replies = received (int_bytes n) ∷ rest; log = log })
      ≡ ok n (record { sends = sends; replies = rest; log = log })
unfolding recv_new_int recv recv_reply
recv_new_int-int_bytes n sends rest log small =
    let whole : int_at (int_bytes n) ≡ n = omega arith in rw whole refl

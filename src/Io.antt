-- ===== src/Io.antt =====
-- Sockets as the servers use them: `send` and `recv` one after the other, against a script of what the
-- network answers, with a log of what was sent.
pub mod Delivery
use nfs_network_file_system.Prelude.{
  true, false, ℕ, ◌+◌, ◌*◌, Bool, List, [], ◌∷◌, ◌++◌, Option, none, some, ◌==◌, if◌then◌else◌,
  get_or,
}
use nfs_network_file_system.Prelude.Bytes.{Bytes}

-- Whom a message goes to: the client of the thread, a storage server at an address and a port, or
-- the storage server that registers; on the other programs also the naming server.
pub data Socket : Type 0 where
  client : Socket
  storage : Bytes → ℕ → Socket
  registrant : Socket
  naming : Socket

-- A buffer up to its NUL, an `int`, or so many bytes of a file.
pub data Packet : Type 0 where
  text : Bytes → Packet
  number : ℕ → Packet
  chunk : Bytes → Packet

pub record Event : Type 0 where
  pub to : Socket
  pub packet : Packet

abbrev pub sent : Socket → Packet → Event
sent s p = record { to = s; packet = p }

-- What a call of `recv` comes to: bytes, the end of the stream, or -1.
pub data Reply : Type 0 where
  received : Bytes → Reply
  closed : Reply
  failed : Reply

-- `sends` says which of the next calls of `send` succeed, all after its end; `replies` is what the next
-- calls of `recv` come to.
pub record World : Type 0 where
  pub sends : List Bool
  pub replies : List Reply
  pub log : List Event

-- `exited` is `exit(EXIT_FAILURE)`; `crashed` an access outside of an object, or the use of a value that is
-- not defined; `blocked` a call that does not return, such as `recv` when nothing comes.
pub data Run (A : Type 0) : Type 0 where
  ok : A → World → Run A
  exited : World → Run A
  crashed : World → Run A
  blocked : World → Run A

abbrev pub Io : Type 0 → Type 0
Io A = World → Run A

abbrev pub pure : {A : Type 0} → A → Io A
pure = ok

module _ {A B : Type 0} where
  abbrev pub and_then : Run A → (A → Io B) → Run B
  and_then (ok a w) k = k a w
  and_then (exited w) k = exited w
  and_then (crashed w) k = crashed w
  and_then (blocked w) k = blocked w

  infixl 5 ◌>>=◌ ◌>>◌
  abbrev pub ◌>>=◌ : Io A → (A → Io B) → Io B
  m >>= k = λ w. and_then (m w) k

  abbrev pub ◌>>◌ : Io A → Io B → Io B
  m >> n = m >>= λ _. n

-- A computation that may not return.
abbrev pub returning : {A : Type 0} → Option A → Io A
returning none = blocked
returning (some a) = ok a

-- One that may fault.
abbrev pub or_crash : {A : Type 0} → Option A → Io A
or_crash none = crashed
or_crash (some a) = ok a

unfoldable pub send : Socket → Packet → Io (Unit {0})
send s p w = elim w.sends [
  | [] ↦ ok tt (record w { log = w.log ++ sent s p ∷ [] })
  | succeeds ∷ rest ↦
      if succeeds
      then ok tt (record w { sends = rest; log = w.log ++ sent s p ∷ [] })
      else exited (record w { sends = rest })
]

-- `send` with its failure as a result.
unfoldable pub try_send : Socket → Packet → Io Bool
try_send s p w = elim w.sends [
  | [] ↦ ok true (record w { log = w.log ++ sent s p ∷ [] })
  | succeeds ∷ rest ↦
      if succeeds
      then ok true (record w { sends = rest; log = w.log ++ sent s p ∷ [] })
      else ok false (record w { sends = rest })
]

unfoldable pub recv_reply : Io Reply
recv_reply w = elim w.replies [ [] ↦ blocked w | r ∷ rest ↦ ok r (record w { replies = rest }) ]

abbrev pub exit_failure : {A : Type 0} → Io A
exit_failure = exited

abbrev pub crash : {A : Type 0} → Io A
crash = crashed

-- `if (recv(…) < 0) exit(EXIT_FAILURE)`; the caller gets `none` for the end of the stream.
abbrev pub accept_reply : Reply → Io (Option Bytes)
accept_reply (received b) = pure (some b)
accept_reply closed = pure none
accept_reply failed = exit_failure

unfoldable pub recv : Io (Option Bytes)
unfolding recv_reply
recv = do r ← recv_reply; accept_reply r

-- A buffer as a text ends at its first NUL.
unfoldable pub c_text : Bytes → Bytes
c_text [] = []
c_text (c ∷ b) = if c == 0 then [] else c ∷ c_text b

-- `recv` into a buffer of zeros, read as a text.
unfoldable pub recv_text : Io Bytes
unfolding recv c_text
recv_text = do b ← recv; pure (elim b [ none ↦ [] | some b ↦ c_text b ])

-- The `int` whose four bytes are received, the lowest first.
abbrev pub int_at : Bytes → ℕ
int_at b = get_or b 0 0 + 256 * (get_or b 1 0 + 256 * (get_or b 2 0 + 256 * get_or b 3 0))

-- `recv` into an `int`, which keeps its value at the end of the stream.
unfoldable pub recv_int : ℕ → Io ℕ
unfolding recv
recv_int old = do b ← recv; pure (elim b [ none ↦ old | some b ↦ int_at b ])

-- `recv` into an `int` that has no value yet: at the end of the stream its value is not defined.
unfoldable pub recv_new_int : Io ℕ
unfolding recv
recv_new_int = do b ← recv; elim b [ none ↦ crash | some b ↦ pure (int_at b) ]

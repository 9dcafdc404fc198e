-- ===== src/StorageServer/Locking.antt =====
-- The semaphores of storageserverinit.c around a transfer.
use nfs_network_file_system.Prelude.{
  ℕ, zero, suc, ◌+◌, ◌≡◌, refl, ap, ◌∙◌, true, List, [], ◌∷◌, Option, some, arith, get_or,
  get_elem?, set,
}
use nfs_network_file_system.Prelude.Bytes.{Bytes}
use nfs_network_file_system.Io.{World, ok, blocked}
use nfs_network_file_system.StorageServer.{
  Locks, sem_wait, sem_post, start_reading, stop_reading, read_file, write_to_file,
}

get_elem?-set : (s : List ℕ) (i v x : ℕ) → get_elem? s i ≡ some v → get_elem? (set s i x) i ≡ some x
get_elem?-set [] i v x e = absurd (cc e)
get_elem?-set (y ∷ s) zero v x e = refl
get_elem?-set (y ∷ s) (suc i) v x e = get_elem?-set s i v x e

set-set : (s : List ℕ) (i x y : ℕ) → set (set s i x) i y ≡ set s i y
set-set [] i x y = refl
set-set (z ∷ s) zero x y = refl
set-set (z ∷ s) (suc i) x y = ap (λ t. z ∷ t) (set-set s i x y)

set-get_elem? : (s : List ℕ) (i v : ℕ) → get_elem? s i ≡ some v → set s i v ≡ s
set-get_elem? [] i v e = refl
set-get_elem? (y ∷ s) zero v e = ground (arith, e)
set-get_elem? (y ∷ s) (suc i) v e = ap (λ t. y ∷ t) (set-get_elem? s i v e)

get_or-get_elem? : (s : List ℕ) (i v : ℕ) → get_elem? s i ≡ some v → get_or s i 0 ≡ v
get_or-get_elem? [] i v e = absurd (cc e)
get_or-get_elem? (y ∷ s) zero v e = ground (arith, e)
get_or-get_elem? (y ∷ s) (suc i) v e = get_or-get_elem? s i v e

-- A wait and a post after it.
set_back : (s : List ℕ) (i v x : ℕ) → get_elem? s i ≡ some v → set (set s i x) i v ≡ s
set_back s i v x e = set-set s i x v ∙ set-get_elem? s i v e

pub sem_wait-open :
    (s : List ℕ) (i v : ℕ) (w : World)
    → get_elem? s i ≡ some (suc v)
    → sem_wait s i w ≡ ok (set s i v) w
unfolding sem_wait
sem_wait-open s i v w e = rw (e, sem_wait) refl

pub sem_wait-shut :
    (s : List ℕ) (i : ℕ) (w : World) → get_elem? s i ≡ some 0 → sem_wait s i w ≡ blocked w
unfolding sem_wait
sem_wait-shut s i w e = rw (e, sem_wait) refl

pub sem_post-set :
    (s : List ℕ) (i v : ℕ) (w : World)
    → get_elem? s i ≡ some v
    → sem_post s i w ≡ ok (set s i (v + 1)) w
unfolding sem_post
sem_post-set s i v w e = rw (e, sem_post) refl

-- What `sem_init` leaves, or more, at an index; nobody reads.
pub record IsFree (l : Locks) (i : ℕ) : Type 0 where
  pub file_value : ℕ
  pub lock_value : ℕ
  pub file_open : get_elem? l.semaphores i ≡ some (suc file_value)
  pub lock_open : get_elem? l.semlocks i ≡ some (suc lock_value)
  pub unread : get_elem? l.reader_count i ≡ some 0

-- The locks while the file is read.
abbrev pub reading : Locks → ℕ → ℕ → Locks
reading l i v = record {
  semaphores = set l.semaphores i v;
  semlocks = l.semlocks;
  reader_count = set l.reader_count i 1;
}

succ : (v : ℕ) → v + 1 ≡ suc v
succ v = omega arith

pub post_back :
    (s : List ℕ) (i v : ℕ) (w : World)
    → get_elem? s i ≡ some (suc v)
    → sem_post (set s i v) i w ≡ ok s w
post_back s i v w e =
    sem_post-set (set s i v) i v w (get_elem?-set s i (suc v) v e)
    ∙ ap (λ t. ok t w) (rw (succ v) (set_back s i (suc v) v e))

pub start_reading-reading :
    (l : Locks) (i : ℕ) (w : World) (free : IsFree l i)
    → start_reading l i w ≡ ok (reading l i free.file_value) w
unfolding start_reading
start_reading-reading l i w free =
    let lock = sem_wait-open l.semlocks i free.lock_value w free.lock_open in
    let readers = get_or-get_elem? l.reader_count i 0 free.unread in
    let file = sem_wait-open l.semaphores i free.file_value w free.file_open in
    let back = post_back l.semlocks i free.lock_value w free.lock_open in
    rw (lock, readers) (rw file (rw back refl))

pub stop_reading-reading :
    (l : Locks) (i : ℕ) (w : World) (free : IsFree l i)
    → stop_reading (reading l i free.file_value) i w ≡ ok l w
unfolding stop_reading
stop_reading-reading l i w free =
    let l' = reading l i free.file_value in
    let lock = sem_wait-open l.semlocks i free.lock_value w free.lock_open in
    let readers =
      get_or-get_elem? l'.reader_count i 1 (get_elem?-set l.reader_count i 0 1 free.unread) in
    let file = post_back l.semaphores i free.file_value w free.file_open in
    let back = post_back l.semlocks i free.lock_value w free.lock_open in
    let counts = set_back l.reader_count i 0 1 free.unread in
    rw (lock, readers) (rw file (rw back (ap (λ r. ok (record l { reader_count = r }) w) counts)))

-- The semaphore of a file is 0, as static storage is where no `sem_init` came.
pub record IsShut (l : Locks) (i : ℕ) : Type 0 where
  pub file_shut : get_elem? l.semaphores i ≡ some 0
  pub lock_shut : get_elem? l.semlocks i ≡ some 0

-- A thread that reads or writes a file whose semaphores were never initialised does not return,
-- whatever the file holds, and whatever comes over the network.
pub IsShut-blocked :
    (l : Locks) (i : ℕ) (file : Option Bytes) (w : World)
    → IsShut l i
    → (read_file l i file w ≡ blocked w) × (write_to_file l i true w ≡ blocked w)
unfolding read_file start_reading write_to_file
IsShut-blocked l i file w shut = (
  rw (sem_wait-shut l.semlocks i w shut.lock_shut) refl,
  rw (sem_wait-shut l.semaphores i w shut.file_shut) refl,
)

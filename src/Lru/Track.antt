-- ===== src/Lru/Track.antt =====
-- What LRU/lru.c promises: a list of texts with their values, the most recently used one first, of
-- bounded length. This is the specification that the nodes and their map are held to.
use nfs_network_file_system.Prelude.{
  ℕ, ◌≡◌, refl, List, [], ◌∷◌, Option, none, some, if◌then◌else◌, take,
}
use nfs_network_file_system.Prelude.Bytes.{Bytes, bytes_eq}
use nfs_network_file_system.MapOperations.{minus_one}

abbrev pub Track : Type 0
Track = List (Bytes × ℕ)

unfoldable pub find : Bytes → Track → Option ℕ
find t [] = none
find t ((s, v) ∷ track) = if bytes_eq s t then some v else find t track

unfoldable pub forget : Bytes → Track → Track
forget t [] = []
forget t ((s, v) ∷ track) = if bytes_eq s t then track else (s, v) ∷ forget t track

-- A key that is put stands first, with its old value forgotten; what exceeds the capacity is lost at
-- the end.
unfoldable pub ideal_put : ℕ → Bytes → ℕ → Track → Track
ideal_put capacity t v track = take capacity ((t, v) ∷ forget t track)

-- A key that is got moves to the front; one that is not there gives -1.
unfoldable pub ideal_get : Bytes → Track → Track × ℕ
unfolding find forget
ideal_get t track = elim (find t track) [
  | none ↦ (track, minus_one)
  | some v ↦ ((t, v) ∷ forget t track, v)
]

pub ideal_get-found :
    (t : Bytes) (v : ℕ) (track : Track)
    → find t track ≡ some v
    → ideal_get t track ≡ ((t, v) ∷ forget t track, v)
unfolding ideal_get
ideal_get-found t v track h = rw (h, ideal_get) refl

pub ideal_get-absent :
    (t : Bytes) (track : Track) → find t track ≡ none → ideal_get t track ≡ (track, minus_one)
unfolding ideal_get
ideal_get-absent t track h = rw (h, ideal_get) refl

-- A call of `get_LRU` or of `put_LRU`.
pub data Call (Key : Type 0) : Type 0 where
  get : Key → Call Key
  put : Key → ℕ → Call Key

-- The results of the calls, one for each `get`.
unfoldable pub ideal_run : ℕ → Track → List (Call Bytes) → Track × List ℕ
ideal_run capacity track [] = (track, [])
ideal_run capacity track (get t ∷ calls) =
    let (track', value) = ideal_get t track in
    let (final, values) = ideal_run capacity track' calls in (final, value ∷ values)
ideal_run capacity track (put t v ∷ calls) = ideal_run capacity (ideal_put capacity t v track) calls

pub ideal_run-get :
    (capacity : ℕ) (track track' : Track) (t : Bytes) (v : ℕ) (calls : List (Call Bytes))
    → ideal_get t track ≡ (track', v)
    → ideal_run capacity track (get t ∷ calls)
      ≡ ((ideal_run capacity track' calls).0, v ∷ (ideal_run capacity track' calls).1)
unfolding ideal_run
ideal_run-get capacity track track' t v calls h = rw h refl

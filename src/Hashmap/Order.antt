-- ===== src/Hashmap/Order.antt =====
-- The intrusive list of hashmap/map.c: which buckets its links visit, and which entries these hold.
use nfs_network_file_system.Prelude.{
  ℕ, zero, suc, ◌+◌, ◌<◌, ◌≡◌, refl, Bool, true, false, not, ◌||◌, Option, none, some, List, [],
  ◌∷◌, ◌++◌, arith, length, set, has, IsNodup, if◌then◌else◌, ◌==◌, Bool-cases, inl, inr,
}
use nfs_network_file_system.Hashmap.{Bucket, Last, front, at, bucket_at, has_key}
use nfs_network_file_system.Hashmap.Dict.{Entry}

-- From `p` the `next` pointers lead through the buckets `xs` to NULL.
abbrev pub Chain : List Bucket → Option ℕ → List ℕ → Type 0
Chain bs p [] = p ≡ none
Chain bs p (x ∷ xs) = (p ≡ some x) × Chain bs (bucket_at bs x).next xs

abbrev pub last_of : List ℕ → Last
last_of [] = front
last_of (x ∷ []) = at x
last_of (x ∷ y ∷ ys) = last_of (y ∷ ys)

-- A bucket that is no longer empty: it holds an entry, or is the tombstone of one.
abbrev pub used : Bucket → Bool
used b = has_key b || not (b.value == 0)

abbrev pub to_nat : Bool → ℕ
to_nat true = 1
to_nat false = 0

unfoldable pub count_used : List Bucket → ℕ
count_used [] = 0
count_used (b ∷ bs) = to_nat (used b) + count_used bs

-- How many of the buckets `xs` are tombstones.
unfoldable pub count_tombs : List Bucket → List ℕ → ℕ
count_tombs bs [] = 0
count_tombs bs (x ∷ xs) = to_nat (not (has_key (bucket_at bs x))) + count_tombs bs xs

-- The entry of a bucket in front of the others.
abbrev pub add_entry : Bucket → List Entry → List Entry
add_entry b es = elim b.key [
  | none ↦ es
  | some k ↦ (record { key = k; ksize = b.ksize; value = b.value }) ∷ es
]

unfoldable pub entries : List Bucket → List ℕ → List Entry
entries bs [] = []
entries bs (x ∷ xs) = add_entry (bucket_at bs x) (entries bs xs)

pub last_of-append : (xs : List ℕ) (i : ℕ) → last_of (xs ++ i ∷ []) ≡ at i
last_of-append [] i = refl
last_of-append (x ∷ []) i = refl
last_of-append (x ∷ y ∷ ys) i = last_of-append (y ∷ ys) i

pub has-last_of : (xs : List ℕ) (l : ℕ) → last_of xs ≡ at l → has l xs ≡ true
has-last_of [] l h = cc
has-last_of (x ∷ []) l h = ground arith
has-last_of (x ∷ y ∷ ys) l h = ground (arith, has-last_of (y ∷ ys) l)

pub last_of-front : (xs : List ℕ) → last_of xs ≡ front → xs ≡ []
last_of-front [] h = refl
last_of-front (x ∷ []) h = cc
last_of-front (x ∷ y ∷ ys) h = let e : y ∷ ys ≡ [] = last_of-front (y ∷ ys) h in cc

-- Only the links of the buckets on a chain matter to it.
pub Chain-congr :
    (bs bs' : List Bucket) (xs : List ℕ) (p : Option ℕ)
    → ((y : ℕ) → has y xs ≡ true → (bucket_at bs' y).next ≡ (bucket_at bs y).next)
    → Chain bs p xs
    → Chain bs' p xs
Chain-congr bs bs' [] p same c = c
Chain-congr bs bs' (x ∷ xs) p same c = (
  c.0,
  rw (same x (ground arith))
      (Chain-congr bs bs' xs (bucket_at bs x).next (λ y h. same y (ground arith)) c.1),
)

-- A chain whose last link is set to `i`, which has no link, is longer by `i`.
pub Chain-append :
    (bs bs' : List Bucket) (xs : List ℕ) (l i : ℕ) (p : Option ℕ)
    → last_of xs ≡ at l
    → IsNodup xs
    → ((y : ℕ)
        → has y xs ≡ true
        → (bucket_at bs' y).next ≡ (if l == y then some i else (bucket_at bs y).next))
    → (bucket_at bs' i).next ≡ none
    → Chain bs p xs
    → Chain bs' p (xs ++ i ∷ [])
Chain-append bs bs' [] l i p last once next stop c = cc
Chain-append bs bs' (x ∷ []) l i p last once next stop c = (c.0, (ground (arith, next x), stop))
Chain-append bs bs' (x ∷ y ∷ ys) l i p last once next stop c =
    let apart : l == x ≡ false = ground (arith, has-last_of (y ∷ ys) l) in
    let kept : (bucket_at bs' x).next ≡ (bucket_at bs x).next = ground (arith, next x) in
    (
      c.0,
      rw kept (
          Chain-append bs bs' (y ∷ ys) l i (bucket_at bs x).next last once.1
            (λ z h. next z (ground arith)) stop c.1),
    )

pub count_used-set :
    (bs : List Bucket) (i : ℕ) (b : Bucket)
    → i < length bs
    → count_used (set bs i b) + to_nat (used (bucket_at bs i)) ≡ count_used bs + to_nat (used b)
unfolding count_used
count_used-set [] i b h = elim h [ ]
count_used-set (x ∷ bs) zero b h = omega arith
count_used-set (x ∷ bs) (suc i) b h = omega (arith, count_used-set bs i b (omega arith))

-- Fewer used buckets than buckets: one is empty.
pub empty-exists :
    (bs : List Bucket)
    → count_used bs < length bs
    → (i : ℕ) × (i < length bs) × (used (bucket_at bs i) ≡ false)
unfolding count_used
empty-exists [] h = elim h [ ]
empty-exists (b ∷ bs) h = elim (Bool-cases (used b)) [
  | inr free ↦ (0, omega arith, free)
  | inl taken ↦ let (i, lt, e) = empty-exists bs (ground arith) in (suc i, omega arith, e)
]

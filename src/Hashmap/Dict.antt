-- ===== src/Hashmap/Dict.antt =====
-- What a hash map stands for: its entries in the order in which they were added. This is the
-- specification that hashmap/map.c is held to.
use nfs_network_file_system.Prelude.{
  ℕ, Bool, ◌&&◌, Option, none, some, List, [], ◌∷◌, ◌≡◌, refl, true, false, ◌==◌, if◌then◌else◌,
  arith, take, ◌++◌,
}
use nfs_network_file_system.Prelude.Bytes.{Bytes, bytes_eq, eq_of_bytes_eq, bytes_eq_refl}

-- The memory at the key's address, the key's size in it, and the value.
pub record Entry : Type 0 where
  pub key : Bytes
  pub ksize : ℕ
  pub value : ℕ

-- The first `n` bytes of the two agree, and `n` is the entry's size.
unfoldable pub same_key : Entry → Bytes → ℕ → Bool
same_key e key n = (e.ksize == n) && bytes_eq (take n e.key) (take n key)

unfoldable pub lookup : Bytes → ℕ → List Entry → Option ℕ
lookup key n [] = none
lookup key n (e ∷ es) = if same_key e key n then some e.value else lookup key n es

-- A write keeps the memory of a key that is there.
unfoldable pub put : Bytes → ℕ → ℕ → List Entry → List Entry
put key n v [] = (record { key = key; ksize = n; value = v }) ∷ []
put key n v (e ∷ es) =
    if same_key e key n then (record e { value = v }) ∷ es else e ∷ put key n v es

-- A write that puts the memory of its own key there.
unfoldable pub overwrite : Bytes → ℕ → ℕ → List Entry → List Entry
overwrite key n v [] = (record { key = key; ksize = n; value = v }) ∷ []
overwrite key n v (e ∷ es) =
    if same_key e key n then (record e { key = key; value = v }) ∷ es else e ∷ overwrite key n v es

unfoldable pub erase : Bytes → ℕ → List Entry → List Entry
erase key n [] = []
erase key n (e ∷ es) = if same_key e key n then es else e ∷ erase key n es

pub same_key_congr :
    (e : Entry) (a b : Bytes) (n : ℕ) → take n a ≡ take n b → same_key e a n ≡ same_key e b n
unfolding same_key
same_key_congr e a b n h = rw h

-- A read after a write.
pub lookup-put_self :
    (key : Bytes) (n v : ℕ) (es : List Entry) → lookup key n (put key n v es) ≡ some v
unfolding lookup put same_key
lookup-put_self key n v [] = ground (arith, bytes_eq_refl (take n key))
lookup-put_self key n v (e ∷ es) = ground (arith, lookup-put_self key n v es)

-- A key is different if its size or its bytes are.
abbrev pub IsOther : Bytes → ℕ → Bytes → ℕ → Type 0
IsOther a n b k = ((n == k) && bytes_eq (take k a) (take k b)) ≡ false

pub same_key_other :
    (e : Entry) (a b : Bytes) (n k : ℕ)
    → IsOther a n b k
    → same_key e a n ≡ true
    → same_key e b k ≡ false
unfolding same_key
same_key_other e a b n k other h = ground (
  arith,
  eq_of_bytes_eq (take n e.key) (take n a),
  eq_of_bytes_eq (take k e.key) (take k b),
  bytes_eq_refl (take k a),
)

pub lookup-put_ne :
    (a b : Bytes) (n k v : ℕ) (es : List Entry)
    → IsOther a n b k
    → lookup b k (put a n v es) ≡ lookup b k es
unfolding lookup put same_key
lookup-put_ne a b n k v [] other = ground arith
lookup-put_ne a b n k v (e ∷ es) other =
    let other_e = same_key_other e a b n k other in
    ground (arith, lookup-put_ne a b n k v es other, other_e)

-- A key that is not there is added at the end.
pub put-absent :
    (key : Bytes) (n v : ℕ) (es : List Entry)
    → lookup key n es ≡ none
    → put key n v es ≡ es ++ (record { key = key; ksize = n; value = v }) ∷ []
unfolding lookup put
put-absent key n v [] h = refl
put-absent key n v (e ∷ es) h = ground (arith, put-absent key n v es)

pub put-overwrite :
    (key : Bytes) (n v : ℕ) (es : List Entry)
    → lookup key n es ≡ none
    → put key n v es ≡ overwrite key n v es
unfolding lookup put overwrite
put-overwrite key n v [] h = refl
put-overwrite key n v (e ∷ es) h = ground (arith, put-overwrite key n v es)

-- ===== src/Hashmap/Hash.antt =====
-- `hash_data` of hashmap/map.c, in 64-bit arithmetic with its wrap-around.
use nfs_network_file_system.Prelude.{
  ℕ, zero, suc, ◌+◌, ◌*◌, ◌/◌, ◌%◌, ◌^◌, ◌<◌, ◌≡◌, ◌==◌, if◌then◌else◌, bit_and, bit_or, bit_xor,
  [], ◌∷◌, take, drop, arith,
}
use nfs_network_file_system.Prelude.Bytes.{Bytes}

abbrev u64 : ℕ
u64 = 2 ^ 64

abbrev hash_init : ℕ
hash_init = 2166136261

-- `(uint64_t)data[0] << shift | (uint64_t)data[1] << (shift + 8) | …`
little_endian : ℕ → Bytes → ℕ
little_endian shift [] = 0
little_endian shift (b ∷ bs) = bit_or (b * 2 ^ shift % u64) (little_endian (shift + 8) bs)

-- The loop over the blocks of eight bytes.
hash_blocks : ℕ → Bytes → ℕ → ℕ
hash_blocks zero bytes hash = hash
hash_blocks (suc n) bytes hash =
    hash_blocks n (drop 8 bytes)
      (bit_xor hash (little_endian 0 (take 8 bytes)) * 0xbf58476d1ce4e5b9 % u64)

-- The switch over the bytes that are left, none of which leaves the hash as it is.
hash_tail : ℕ → Bytes → ℕ → ℕ
hash_tail size rest hash =
    if size % 8 == 0
    then hash
    else bit_xor hash (bit_or (bit_and size 0xff) (little_endian 8 (take (size % 8) rest)))
      * 0xd6e8feb86659fd93
      % u64

-- The function reads `size` bytes from `data` on.
unfoldable pub hash_data : Bytes → ℕ → ℕ
unfolding little_endian hash_blocks hash_tail
hash_data memory size =
    let bytes = take size memory in
    let nblocks = size / 8 in
    let hash = hash_tail size (drop (nblocks * 8) bytes) (hash_blocks nblocks bytes hash_init) in
    bit_xor hash (hash / 2 ^ 32) % 2 ^ 32

-- The result fits into 32 bits.
pub hash_data-lt : (bytes : Bytes) (size : ℕ) → hash_data bytes size < 2 ^ 32
unfolding hash_data
hash_data-lt bytes size = omega arith

-- Only those bytes count.
pub hash_data_congr : (a b : Bytes) (n : ℕ) → take n a ≡ take n b → hash_data a n ≡ hash_data b n
unfolding hash_data
hash_data_congr a b n e = rw e

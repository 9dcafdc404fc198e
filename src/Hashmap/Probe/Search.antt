-- ===== src/Hashmap/Probe/Search.antt =====
-- What the probing loop of hashmap/map.c finds: a bucket that passes the test, if there is one.
use native.Mathlib.Nat.{mod-add-mod, mod-eq_of_lt, add-mod_right}
use native.Mathlib.Decide.{dec_le}
use nfs_network_file_system.Prelude.{
  ℕ, zero, suc, ◌+◌, ◌-◌, ◌%◌, ◌<◌, ◌≡◌, ap, Bool, true, false, List, none, some, get_or, arith,
  Option-cases, inl, inr,
}
use nfs_network_file_system.Hashmap.Probe.{probe_loop}

module _ {B : Type 0} (test : B → Bool) (bs : List B) (capacity : ℕ) (d : B) where
  pub probe_loop-test :
      (n i j : ℕ) → probe_loop test bs capacity d n i ≡ some j → test (get_or bs j d) ≡ true
  unfolding probe_loop
  probe_loop-test zero i j h = ground arith
  probe_loop-test (suc n) i j h = ground (arith, probe_loop-test n ((i + 1) % capacity) j)

  pub probe_loop-lt :
      (n i j : ℕ) → probe_loop test bs capacity d n i ≡ some j → i < capacity → j < capacity
  unfolding probe_loop
  probe_loop-lt zero i j h lt = ground arith
  probe_loop-lt (suc n) i j h lt = ground (arith, probe_loop-lt n ((i + 1) % capacity) j)

  -- A loop that does not end has seen every bucket.
  probe_loop-none :
      (n i t : ℕ)
      → probe_loop test bs capacity d n i ≡ none
      → i < capacity
      → t < n
      → test (get_or bs ((i + t) % capacity) d) ≡ false
  unfolding probe_loop
  probe_loop-none zero i t h lt ht = elim ht [ ]
  probe_loop-none (suc n) i zero h lt ht =
      let e : i + 0 ≡ i = omega arith in rw (e, mod-eq_of_lt lt) (ground arith)
  probe_loop-none (suc n) i (suc t) h lt ht =
      let e : (i + suc t) % capacity ≡ ((i + 1) % capacity + t) % capacity =
        simp (mod-add-mod) (ap (λ (x : ℕ). x % capacity) (omega arith)) in
      rw e (ground (arith, probe_loop-none n ((i + 1) % capacity) t))

  offset :
      (i j : ℕ) → i < capacity → j < capacity → (t : ℕ) × (t < capacity) × ((i + t) % capacity ≡ j)
  offset i j hi hj = elim (dec_le i j) [
    | yes p ↦ let e : i + (j - i) ≡ j = omega arith in (j - i, omega arith, rw e (mod-eq_of_lt hj))
    | no p ↦
        let e : i + (j + capacity - i) ≡ j + capacity = omega arith in
        (j + capacity - i, omega arith, rw (e, add-mod_right) (mod-eq_of_lt hj))
  ]

  -- The loop ends if some bucket passes the test.
  pub probe_loop-total :
      (i j : ℕ)
      → i < capacity
      → j < capacity
      → test (get_or bs j d) ≡ true
      → (k : ℕ) × (probe_loop test bs capacity d capacity i ≡ some k)
  probe_loop-total i j hi hj h = elim (Option-cases (probe_loop test bs capacity d capacity i)) [
    | inr found ↦ found
    | inl e ↦
        let (t, lt, at) = offset i j hi hj in
        let stuck = probe_loop-none capacity i t e hi lt in absurd (ground arith)
  ]

-- The loop gives the same bucket in another array, and for another test, that stops there and
-- stops at no other bucket where it did not stop before.
pub probe_loop_mono :
    {B : Type 0} (test test' : B → Bool) (bs bs' : List B) (capacity : ℕ) (d : B) (n i j : ℕ)
    → ((x : ℕ) → test' (get_or bs' x d) ≡ true → test (get_or bs x d) ≡ true)
    → test' (get_or bs' j d) ≡ true
    → probe_loop test bs capacity d n i ≡ some j
    → probe_loop test' bs' capacity d n i ≡ some j
unfolding probe_loop
probe_loop_mono test test' bs bs' capacity d zero i j weak stop h = ground arith
probe_loop_mono test test' bs bs' capacity d (suc n) i j weak stop h =
    ground (
      arith,
      weak i,
      probe_loop_mono test test' bs bs' capacity d n ((i + 1) % capacity) j weak stop,
    )

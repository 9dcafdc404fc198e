-- ===== src/Hashmap/Append.antt =====
-- The new entry at the end of the list: `m->last->next = entry` and what follows it in
-- hashmap/map.c, shared by the insertions and by `hashmap_resize`.
use nfs_network_file_system.Prelude.{
  ℕ, ◌+◌, ◌%◌, ◌<◌, ◌≤◌, ◌≡◌, refl, sym, ◌∙◌, Bool, true, false, Option, none, some, List, [], ◌∷◌,
  ◌++◌, arith, length, set, has, if◌then◌else◌, ◌==◌, Bool-cases, inl, inr, get_or-set, length-set,
  get_or-set_self, IsNodup, length-append, has-append, IsNodup-append_one, get_or-out,
}
use native.Mathlib.Decide.{dec_lt}
use mathlib.Core.Path.{ap₂}
use nfs_network_file_system.Prelude.Bytes.{Bytes}
use nfs_network_file_system.Hashmap.{
  Bucket, Hashmap, Last, front, at, bucket_at, empty_bucket, stops, append_entry, link, link_first,
}
use nfs_network_file_system.Hashmap.Hash.{hash_data}
use nfs_network_file_system.Hashmap.Probe.Search.{probe_loop_mono}
use nfs_network_file_system.Hashmap.Get.{entry}
use nfs_network_file_system.Hashmap.Order.{
  Chain, last_of, used, count_used, entries, has-last_of, last_of-front, last_of-append,
  Chain-append, count_used-set,
}
use nfs_network_file_system.Hashmap.Invariant.{search_for, IsTable, IsPlaced, same-stops}

abbrev pub is_last : Last → ℕ → Bool
is_last front y = false
is_last (at l) y = l == y

abbrev InRange : Last → ℕ → Type 0
InRange front n = Unit {0}
InRange (at l) n = l < n

link-at :
    (l : Last) (bs : List Bucket) (i : ℕ) (b : Bucket) (y : ℕ)
    → i < length bs
    → InRange l (length bs)
    → bucket_at (link l bs i b) y ≡ (
        if i == y
        then b
        else if is_last l y
        then record (bucket_at bs y) { next = some i }
        else bucket_at bs y)
link-at front bs i b y lt ok = get_or-set bs i y b empty_bucket lt
link-at (at l) bs i b y lt ok =
    let b' = record (bucket_at bs l) { next = some i } in
    ground (
      arith,
      get_or-set (set bs l b') i y b empty_bucket,
      get_or-set bs l y b' empty_bucket,
      length-set bs l b',
    )

length-link :
    (l : Last) (bs : List Bucket) (i : ℕ) (b : Bucket) → length (link l bs i b) ≡ length bs
length-link front bs i b = length-set bs i b
length-link (at l) bs i b =
    let b' = record (bucket_at bs l) { next = some i } in
    length-set (set bs l b') i b ∙ length-set bs l b'

count_used-link :
    (l : Last) (bs : List Bucket) (i : ℕ) (b : Bucket)
    → i < length bs
    → InRange l (length bs)
    → used (bucket_at bs i) ≡ false
    → used b ≡ true
    → count_used (link l bs i b) ≡ count_used bs + 1
count_used-link front bs i b lt ok free full = ground (arith, count_used-set bs i b)
count_used-link (at l) bs i b lt ok free full =
    let b' = record (bucket_at bs l) { next = some i } in
    ground (
      arith,
      count_used-set (set bs l b') i b,
      count_used-set bs l b',
      get_or-set bs l i b' empty_bucket,
      length-set bs l b',
    )

last-InRange :
    {m : Hashmap} {xs : List ℕ}
    → IsTable m xs
    → (l : Last) → m.last ≡ l
    → InRange l (length m.buckets)
last-InRange v front e = tt
last-InRange {m} {xs} v (at l) e =
    let member = has-last_of xs l (sym v.last ∙ e) in
    elim (dec_lt l (length m.buckets)) [
      | yes p ↦ p
      | no p ↦
          let out = get_or-out m.buckets l empty_bucket (omega arith) in
          absurd (ground (arith, v.listed l))
    ]

link-Chain :
    (l : Last) (bs : List Bucket) (p : Option ℕ) (xs : List ℕ) (i : ℕ) (b : Bucket)
    → i < length bs
    → InRange l (length bs)
    → l ≡ last_of xs
    → IsNodup xs
    → has i xs ≡ false
    → b.next ≡ none
    → Chain bs p xs
    → Chain (link l bs i b) (link_first l p i) (xs ++ i ∷ [])
link-Chain front bs p xs i b lt ok last once fresh stop c =
    let e = last_of-front xs (sym last) in
    rw e (refl, ground (arith, get_or-set_self bs i b empty_bucket lt))
link-Chain (at l) bs p xs i b lt ok last once fresh stop c =
    Chain-append bs (link (at l) bs i b) xs l i p (sym last) once
      (λ y h. ground (arith, link-at (at l) bs i b y)) (ground (arith, link-at (at l) bs i b i)) c

pub entries_congr :
    (bs bs' : List Bucket) (xs : List ℕ)
    → ((y : ℕ)
        → has y xs ≡ true
        → ((bucket_at bs' y).key ≡ (bucket_at bs y).key)
          × ((bucket_at bs' y).ksize ≡ (bucket_at bs y).ksize)
          × ((bucket_at bs' y).value ≡ (bucket_at bs y).value))
    → entries bs' xs ≡ entries bs xs
unfolding entries
entries_congr bs bs' [] same = refl
entries_congr bs bs' (x ∷ xs) same =
    ground (arith, same x, entries_congr bs bs' xs (λ y h. same y (ground arith)))

entries-append :
    (bs : List Bucket) (xs ys : List ℕ) → entries bs (xs ++ ys) ≡ entries bs xs ++ entries bs ys
unfolding entries
entries-append bs [] ys = refl
entries-append bs (x ∷ xs) ys = ground (arith, entries-append bs xs ys)

-- What is appended: a bucket with a key, in the free place where the search for the key ends.
pub record IsNew (m : Hashmap) (xs : List ℕ) (i : ℕ) (b : Bucket) (k : Bytes) : Type 0 where
  pub table : IsTable m xs
  pub inside : i < m.capacity
  pub free : used (bucket_at m.buckets i) ≡ false
  pub keyed : b.key ≡ some k
  pub within : b.ksize ≤ length k
  pub hashed : b.hash ≡ hash_data k b.ksize
  pub found : search_for m.buckets m.capacity k b.ksize ≡ some i

module _ {m : Hashmap} {xs : List ℕ} {i : ℕ} {b : Bucket} {k : Bytes} (new : IsNew m xs i b k) where
  lt : i < length m.buckets
  lt = omega (arith, new.table.width, new.inside)

  ok : InRange m.last (length m.buckets)
  ok = last-InRange new.table m.last refl

  fresh : has i xs ≡ false
  fresh = new.table.listed i ∙ new.free

  abbrev pub after : List Bucket
  after = link m.last m.buckets i (record b { next = none })

  pub at_new :
      (y : ℕ)
      → bucket_at after y ≡ (
          if i == y
          then record b { next = none }
          else if is_last m.last y
          then record (bucket_at m.buckets y) { next = some i }
          else bucket_at m.buckets y)
  at_new y = link-at m.last m.buckets i (record b { next = none }) y lt ok

  -- A search in the new array that stops at a bucket stopped there before.
  stops_before :
      (key : Bytes) (n h y : ℕ)
      → stops key n h (bucket_at after y) ≡ true
      → stops key n h (bucket_at m.buckets y) ≡ true
  unfolding stops
  stops_before key n h y s = ground (arith, at_new y, new.free)

  search_after :
      (key : Bytes) (n x : ℕ)
      → search_for m.buckets m.capacity key n ≡ some x
      → stops key n (hash_data key n) (bucket_at after x) ≡ true
      → search_for after m.capacity key n ≡ some x
  search_after key n x found stop =
      probe_loop_mono (stops key n (hash_data key n)) (stops key n (hash_data key n)) m.buckets
        after m.capacity empty_bucket m.capacity (hash_data key n % m.capacity) x
        (stops_before key n (hash_data key n)) stop found

  IsPlaced-new :
      (x : ℕ) (k' : Bytes)
      → i ≡ x
      → (bucket_at after x).key ≡ some k'
      → IsPlaced after m.capacity x k'
  IsPlaced-new x k' here e =
      let size : (bucket_at after x).ksize ≡ b.ksize = ground (arith, at_new x) in
      let hash : (bucket_at after x).hash ≡ b.hash = ground (arith, at_new x) in
      let key : k' ≡ k = ground (arith, at_new x, new.keyed) in
      record {
        within = ground (arith, new.within);
        hashed = ground (arith, new.hashed);
        found =
            rw (size, key, ← here)
              (search_after k b.ksize i new.found (
                same-stops (bucket_at after i) k k b.ksize (hash_data k b.ksize)
                  (ground (arith, at_new i, new.keyed)) (ground (arith, at_new i))
                  (ground (arith, at_new i, new.hashed)) refl));
      }

  IsPlaced-old :
      (x : ℕ) (k' : Bytes)
      → i == x ≡ false
      → (bucket_at after x).key ≡ some k'
      → IsPlaced after m.capacity x k'
  IsPlaced-old x k' apart e =
      let size : (bucket_at after x).ksize ≡ (bucket_at m.buckets x).ksize =
        ground (arith, at_new x) in
      let hash : (bucket_at after x).hash ≡ (bucket_at m.buckets x).hash =
        ground (arith, at_new x) in
      let p = new.table.placed x k' (ground (arith, at_new x)) in
      let n = (bucket_at m.buckets x).ksize in
      record {
        within = ground (arith, p.within);
        hashed = ground (arith, p.hashed);
        found = rw size (
            search_after k' n x p.found (
              same-stops (bucket_at after x) k' k' n (hash_data k' n) e size (hash ∙ p.hashed)
                refl));
      }

  -- The table is longer by the new entry.
  pub append_entry-IsTable : IsTable (append_entry m i b) (xs ++ i ∷ [])
  unfolding append_entry
  append_entry-IsTable = record {
    width = length-link m.last m.buckets i (record b { next = none }) ∙ new.table.width;
    roomy = new.table.roomy;
    chain =
        link-Chain m.last m.buckets m.first xs i (record b { next = none }) lt ok new.table.last
          new.table.nodup fresh refl new.table.chain;
    last = sym (last_of-append xs i);
    listed = λ y. ground (arith, has-append y xs (i ∷ []), new.table.listed y, at_new y);
    nodup = IsNodup-append_one xs i new.table.nodup fresh;
    filled = omega (
      arith,
      count_used-link m.last m.buckets i (record b { next = none }) lt ok new.free
          (ground (arith, new.keyed)),
      length-append xs (i ∷ []),
      new.table.filled,
    );
    placed = λ x k' e. elim (Bool-cases (i == x)) [
      | inl same ↦ IsPlaced-new x k' (ground arith) e
      | inr apart ↦ IsPlaced-old x k' apart e
    ];
  }

  pub append_entry-entries :
      entries (append_entry m i b).buckets (xs ++ i ∷ [])
      ≡ entries m.buckets xs ++ entry k b.ksize b.value ∷ []
  unfolding append_entry entries
  append_entry-entries =
      entries-append after xs (i ∷ [])
      ∙ ap₂ ◌++◌ (entries_congr m.buckets after xs same) (ground (arith, at_new i, new.keyed))
    where
      same :
          (y : ℕ)
          → has y xs ≡ true
          → ((bucket_at after y).key ≡ (bucket_at m.buckets y).key)
            × ((bucket_at after y).ksize ≡ (bucket_at m.buckets y).ksize)
            × ((bucket_at after y).value ≡ (bucket_at m.buckets y).value)
      same y member = ground (arith, at_new y, fresh)

-- ===== src/Lru/Get.antt =====
-- `get_LRU` of LRU/lru.c against the specification.
use nfs_network_file_system.Prelude.{
  ℕ, ◌-◌, ◌≡◌, ◌≢◌, refl, sym, ◌∙◌, ap, false, List, [], ◌∷◌, some, ◌==◌, arith, Bool-cases,
  Option-cases, inl, inr,
}
use nfs_network_file_system.MapOperations.{CString, minus_one}
use nfs_network_file_system.Lru.{Node, Lru, tail, node_at, touch, get_lru}
use nfs_network_file_system.Lru.Index.{get_value_lr-IsIndex}
use nfs_network_file_system.Lru.Cells.{pair_of}
use nfs_network_file_system.Lru.Items.{
  Item, addrs, addr_at, addr_at-on, addr_at-find, addr_at-absent, track_of, track_of-cut, cut,
  length-cut,
}
use nfs_network_file_system.Lru.Chain.{IsNodup-front}
use nfs_network_file_system.Lru.Track.{Track, ideal_get, ideal_get-found, ideal_get-absent}
use nfs_network_file_system.Lru.Invariant.{IsStored, IsLru, unlink, push_front}

module _ {Text : Type 0} (mem : Text → CString) where
  -- The node behind a pair of a key and a value.
  pub node_of_pair :
      (nodes : List (Node Text)) (d : ℕ) (key : Text) (v : ℕ)
      → pair_of nodes d ≡ some (key, v)
      → (n : Node Text) × (node_at nodes d ≡ some n) × (n.key ≡ key) × (n.val ≡ v)
  node_of_pair nodes d key v h = elim (Option-cases (node_at nodes d)) [
    | inl e ↦ absurd (ground (arith, e))
    | inr (n, e) ↦ (n, e, ground arith, ground arith)
  ]

  -- What `get_LRU` leaves: a cache whose list is the specification's, and its answer.
  pub record Gets (l : Lru Text) (is : List Item) (key : Text) : Type 0 where
    pub l' : Lru Text
    pub value : ℕ
    pub items : List Item
    pub runs : get_lru mem l key ≡ some (l', value)
    pub keeps : IsLru mem l' items
    pub kept : l'.capacity ≡ l.capacity
    pub ideal : ideal_get (mem key).text (track_of is) ≡ (track_of items, value)

  touch-ideal :
      {l : Lru Text} {is : List Item}
      → IsLru mem l is
      → (key : Text) → (mem key).text ≢ []
      → addr_at (mem key).text is ≢ 0
      → Gets l is key
  unfolding get_lru touch
  touch-ideal {l} {is} h key ne there =
      let t = (mem key).text in
      let d = addr_at t is in
      let (i, stored, at, text, found) = addr_at-find (IsStored mem l.nodes) t is h.stored there in
      let pair : pair_of l.nodes d ≡ some (stored.key, i.val) = rw (← at) stored.pair in
      let (n, here, own, val) = node_of_pair l.nodes d stored.key i.val pair in
      let u = unlink mem h.list (mem key) ne there in
      let shorter = length-cut d is (addr_at-on t is there) in
      let p =
        push_front mem {l = record l { nodes = u.nodes'; m = u.m'; map_size = l.map_size - 1 }}
          u.keeps (omega arith) (omega arith) d key stored.key i.val u.free
          (rw (u.size, ← at) stored.in_heap) (u.pairs d ∙ pair) (stored.texted ∙ text) ne u.gone in
      let there_b : d == 0 ≡ false = ground arith in
      record {
        l' = p.l';
        value = i.val;
        items = record { addr = d; text = t; val = i.val } ∷ cut d is;
        runs =
            rw
              (
                get_value_lr-IsIndex h.index (mem key) ne,
                there_b,
                here,
                u.removes,
                u.deletes,
                p.adds,
                p.sets,
                val,
              )
              refl;
        keeps = p.keeps;
        kept = p.kept;
        ideal =
            ideal_get-found t i.val (track_of is) found
            ∙ ap (λ (track : Track). ((t, i.val) ∷ track, i.val))
                (sym (track_of-cut t is (IsNodup-front (addrs is) (tail ∷ []) h.nodup.1) there));
      }

  -- For a key whose text is not empty, `get_LRU` returns, keeps the invariant, and agrees with the
  -- specification on its answer and on the list that it leaves.
  pub get_lru-ideal_get :
      {l : Lru Text} {is : List Item}
      → IsLru mem l is
      → (key : Text) → (mem key).text ≢ []
      → Gets l is key
  unfolding get_lru
  get_lru-ideal_get {l} {is} h key ne = elim (Bool-cases (addr_at (mem key).text is == 0)) [
    | inr there ↦ touch-ideal h key ne (λ e. ground arith)
    | inl gone ↦ record {
      l' = l;
      value = minus_one;
      items = is;
      runs = rw (get_value_lr-IsIndex h.index (mem key) ne, gone) refl;
      keeps = h;
      kept = refl;
      ideal =
          ideal_get-absent (mem key).text (track_of is)
            (addr_at-absent (mem key).text is h.distinct (ground arith)).0;
    }
  ]

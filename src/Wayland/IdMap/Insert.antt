-- ===== src/Wayland/IdMap/Insert.antt =====
-- wl_map_insert_new: an id that was not in use, or a refusal.
use k1os.Prelude.{
  ℕ_discrete, ==_refl, ℕ, ◌+◌, ◌/◌, ◌%◌, ◌^◌, ◌<◌, ◌≡◌, refl, sym, ◌∙◌, ◌≢◌, ap, Bool, true, false,
  ◌&&◌, some, List, [], ◌∷◌, ◌++◌, arith, length-append, lt→ltb, ==_ne, get_elem?-eq-get_or, ltb,
  ltb→lt, ◌==◌, if◌then◌else◌, length, get_or, Bool-cases, inl, inr, Succeeds, succeeds,
  Succeeds-bind,
}
use k1os.Wayland.Array.{Array}
use k1os.Wayland.Array.Laws.{IsArray, IsRefused}
use k1os.Wayland.IdMap.{
  IdMap, Side, server, client, same_side, entries_of, entry_size, map_lookup, map_lookup_flags,
  map_entry_is_free, tagged, side_of, index_of, base, store, with_entries, max_objects,
  server_id_start, count_of, fill_slot, map_insert_new,
}
use k1os.Wayland.IdMap.Invariant.{
  IsMap, IsChain, NotIn, slot, as_slot, live_entry_lem, count_of-length, own-IsArray,
  IsChain-append, live_entry-grown, live_entry-out,
}
use k1os.Wayland.IdMap.Store.{
  IsUnused, IsUnused-zero, lookup-word, Alike, Alike-slot, other_id, id_fields, slot-store,
  store-IsMap, same_side_refl, tagged_fields, Extended, extended, unextended, add_entry-Extended,
  free-IsUnused, entries_of-with, IsUnused-none, map_of,
}

-- What wl_map_insert_new does to a map: `data'` is found under a new id of the map's own side, and
-- every other id answers as before; or all ids do.
pub data Inserted (can_alloc : ℕ → Bool) (flags data' : ℕ) (m : IdMap) : ℕ × IdMap → Type 0 where
  placed :
      {id : ℕ} {m' : IdMap} (free : List ℕ)
      → IsMap free m'
      → side_of id ≡ m.side
      → map_lookup m id ≡ 0
      → map_lookup m' id ≡ data'
      → map_lookup_flags m' id ≡ flags % 2
      → ((j : ℕ) → j ≢ id → Alike m m' j)
      → Inserted can_alloc flags data' m (id, m')
  full :
      {m' : IdMap} (free : List ℕ)
      → IsMap free m'
      → max_objects < length (entries_of m.side m).items
      → ((j : ℕ) → Alike m m' j)
      → Inserted can_alloc flags data' m (0, m')
  no_memory :
      {m' : IdMap}
      → m.free_list ≡ 0
      → IsRefused can_alloc ((entries_of m.side m).size + entry_size)
      → m' ≡ m
      → Inserted can_alloc flags data' m (0, m')

-- The slot that wl_map_insert_new has found in `b`, which else agrees with the map `m`.
pub record IsSlot (count : ℕ) (free : List ℕ) (m b : IdMap) : Type 0 where
  pub valid : IsMap free b
  pub inside : count < length (entries_of b.side b).items
  pub small : length (entries_of b.side b).items < server_id_start
  pub unused : IsUnused m (count + base b.side)
  pub same : (j : ℕ) → j ≢ count + base b.side → slot b j ≡ slot m j
  pub out : NotIn count free
  pub owner : b.side ≡ m.side
  pub beyond : max_objects < count → max_objects < length (entries_of m.side m).items

module _ (can_alloc : ℕ → Bool) (flags data' count : ℕ) (free : List ℕ) (m b : IdMap)
    (aligned : data' % 4 ≡ 0) (s : IsSlot count free m b) where
  stored :
      (word j : ℕ)
      → slot (store b.side count word b) j
        ≡ (if same_side (side_of j) b.side && count == index_of j then as_slot word else slot b j)
  stored word j =
      slot-store b.side count word b j (own-IsArray b.side s.valid) (omega (arith, s.small))
        s.inside

  here : (word : ℕ) → slot (store b.side count word b) (count + base b.side) ≡ as_slot word
  here word =
      let (side, index) = id_fields b.side count (omega (arith, s.small, s.inside)) in
      stored word (count + base b.side) ∙ rw (side, index, same_side_refl b.side, ==_refl count)

  others : (word j : ℕ) → j ≢ count + base b.side → Alike m (store b.side count word b) j
  others word j h =
      Alike-slot m (store b.side count word b) j
        (stored word j ∙ rw (other_id b.side count j h) (s.same j h))

  found :
      let m' = store b.side count (tagged flags data') b in
      (map_lookup m' (count + base b.side) ≡ data')
      × (map_lookup_flags m' (count + base b.side) ≡ flags % 2)
  found =
      let (live, get, flag) = tagged_fields flags data' aligned in
      let (l, f) = lookup-word _ (count + base b.side) (tagged flags data') (here _ ∙ rw live) in
      (l ∙ get, f ∙ flag)

  cleared : (j : ℕ) → Alike m (store b.side count 0 b) j
  unfolding map_entry_is_free
  cleared j = elim (ℕ_discrete j (count + base b.side)) [
    | yes e ↦
        let (l, f) = IsUnused-zero (store b.side count 0 b) (count + base b.side) (here 0) in
        rw e (l ∙ sym s.unused.0, f ∙ sym s.unused.1)
    | no ne ↦ others 0 j ne
  ]

  fill_slot-Inserted : Inserted can_alloc flags data' m (fill_slot flags data' count b)
  unfolding fill_slot
  fill_slot-Inserted = elim (Bool-cases (ltb max_objects count)) [
    | inl e ↦ rw e (
        full free (store-IsMap free count 0 b s.valid s.inside s.out) (s.beyond (ltb→lt _ _ e))
          cleared)
    | inr e ↦ rw e (
        placed free (store-IsMap free count _ b s.valid s.inside s.out)
          ((id_fields b.side count (omega (arith, s.small, s.inside))).0 ∙ s.owner) s.unused.0
          found.0 found.1 (others (tagged flags data')))
  ]

NotIn-length :
    (words : List ℕ) (link : ℕ) (free : List ℕ)
    → IsChain words link free
    → NotIn (length words) free
NotIn-length words link [] c = tt
NotIn-length words link (i ∷ free) c =
    (omega (arith, c.1), NotIn-length words (get_or words i 0) free c.4)

-- The word at the head of the free list is the next link.
next-link :
    (words : List ℕ) (link : ℕ) (free : List ℕ) → IsChain words link free → link % 2 ^ 32 ≡ link
next-link words link [] c = rw c refl
next-link words link (i ∷ free) c = omega (arith, c.0, c.2)

-- The slot of an id of the map's own side.
own-slot :
    (m : IdMap) (i : ℕ)
    → IsArray entry_size (entries_of m.side m)
    → i < length (entries_of m.side m).items
    → length (entries_of m.side m).items < server_id_start
    → slot m (i + base m.side) ≡ as_slot (get_or (entries_of m.side m).items i 0)
own-slot m i v h small =
    let (side, index) = id_fields m.side i (omega arith) in
    rw (side, index) (live_entry_lem (entries_of m.side m) v (omega arith) i ∙ rw (lt→ltb _ _ h))

reuse-IsSlot :
    (i : ℕ) (free : List ℕ) (m : IdMap)
    → IsMap (i ∷ free) m
    → length (entries_of m.side m).items < server_id_start
    → IsSlot i free m (record m { free_list = get_or (entries_of m.side m).items i 0 })
reuse-IsSlot i free m v small = record {
  valid = record { clients = v.clients; servers = v.servers; chain = v.chain.4 };
  inside = v.chain.1;
  small = small;
  unused =
      free-IsUnused m (i + base m.side) (get_or (entries_of m.side m).items i 0) free
        (entries_of m.side m).items (own-slot m i (own-IsArray m.side v) v.chain.1 small) v.chain.4;
  same = λ j h. refl;
  out = v.chain.3;
  owner = refl;
  beyond = λ h. omega (arith, v.chain.1, v.chain.2);
}

extend-IsMap :
    (fresh : ℕ) (free : List ℕ) (m : IdMap) (a : Array ℕ)
    → IsMap free m
    → IsArray entry_size a
    → a.items ≡ (entries_of m.side m).items ++ fresh ∷ []
    → IsMap free (with_entries m.side a m)
extend-IsMap fresh free m a = by_side m.side m.client_entries m.server_entries m.free_list
  where
    by_side :
        (s : Side) (c d : Array ℕ) (link : ℕ)
        → IsMap free (map_of s c d link)
        → IsArray entry_size a
        → a.items ≡ (entries_of s (map_of s c d link)).items ++ fresh ∷ []
        → IsMap free (with_entries s a (map_of s c d link))
    by_side client c d link v w e = record {
      clients = w;
      servers = v.servers;
      chain = rw e (IsChain-append c.items (fresh ∷ []) link free v.chain);
    }
    by_side server c d link v w e = record {
      clients = v.clients;
      servers = w;
      chain = rw e (IsChain-append d.items (fresh ∷ []) link free v.chain);
    }

slot-with_entries :
    (s : Side) (fresh : ℕ) (m : IdMap) (a : Array ℕ) (j : ℕ)
    → IsArray entry_size (entries_of s m)
    → IsArray entry_size a
    → a.items ≡ (entries_of s m).items ++ fresh ∷ []
    → length a.items < 2 ^ 32
    → j ≢ length (entries_of s m).items + base s
    → slot (with_entries s a m) j ≡ slot m j
slot-with_entries client fresh m a j v w e small h =
    ground (arith, live_entry-grown m.client_entries a v w fresh e small (index_of j))
slot-with_entries server fresh m a j v w e small h =
    ground (arith, live_entry-grown m.server_entries a v w fresh e small (index_of j))

module _ (fresh : ℕ) (free : List ℕ) (m : IdMap) (a : Array ℕ) (v : IsMap free m)
    (w : IsArray entry_size a) (e : a.items ≡ (entries_of m.side m).items ++ fresh ∷ [])
    (small : length a.items < server_id_start) where
  grown : length a.items ≡ length (entries_of m.side m).items + 1
  grown = omega (arith, ap length e, length-append (entries_of m.side m).items (fresh ∷ []))

  end-IsUnused : IsUnused m (length (entries_of m.side m).items + base m.side)
  end-IsUnused =
      let n = length (entries_of m.side m).items in
      let (side, index) = id_fields m.side n (omega (arith, small, grown)) in
      IsUnused-none m (n + base m.side) (
        rw (side, index)
          (live_entry-out (entries_of m.side m) (own-IsArray m.side v) (omega (arith, small, grown))
            n (omega arith)))

  pub extend-IsSlot : IsSlot (length (entries_of m.side m).items) free m (with_entries m.side a m)
  extend-IsSlot = record {
    valid = extend-IsMap fresh free m a v w e;
    inside = rw (entries_of-with m.side a m) (omega (arith, grown));
    small = rw (entries_of-with m.side a m) small;
    unused = end-IsUnused;
    same = λ j h.
        slot-with_entries m.side fresh m a j (own-IsArray m.side v) w e (omega (arith, small)) h;
    out = NotIn-length (entries_of m.side m).items m.free_list free v.chain;
    owner = refl;
    beyond = λ h. h;
  }

module _ (can_alloc : ℕ → Bool) (fresh flags data' : ℕ) (aligned : data' % 4 ≡ 0) where
  insert_new-reuse :
      (i : ℕ) (free : List ℕ) (m : IdMap)
      → IsMap (i ∷ free) m
      → length (entries_of m.side m).items + 1 < server_id_start
      → Succeeds (Inserted can_alloc flags data' m) (map_insert_new can_alloc fresh flags data' m)
  unfolding map_insert_new
  insert_new-reuse i free m v small =
      let words = (entries_of m.side m).items in
      let busy : (m.free_list == 0) ≡ false = ==_ne m.free_list 0 (omega (arith, v.chain.0)) in
      let half : m.free_list / 2 ≡ i = omega (arith, v.chain.0) in
      let read = get_elem?-eq-get_or words i 0 v.chain.1 in
      let link = next-link words (get_or words i 0) free v.chain.4 in
      rw (busy, half, read, link)
        (succeeds (
          fill_slot-Inserted can_alloc flags data' i free m _ aligned
            (reuse-IsSlot i free m v (omega (arith, small)))))

  insert_new-extend :
      (m : IdMap)
      → IsMap [] m
      → length (entries_of m.side m).items + 1 < server_id_start
      → Succeeds (Inserted can_alloc flags data' m) (map_insert_new can_alloc fresh flags data' m)
  unfolding map_insert_new
  insert_new-extend m v small = rw idle (
      Succeeds-bind
        (add_entry-Extended can_alloc fresh m.side m (own-IsArray m.side v) (omega arith)) step)
    where
      idle : (m.free_list == 0) ≡ true
      idle = rw v.chain refl

      step :
          (r : Bool × IdMap)
          → Extended can_alloc m.side fresh m r
          → Succeeds (Inserted can_alloc flags data' m) (
              some (
                if r.0 then fill_slot flags data' (count_of (entries_of m.side m)) r.1 else (0, m)))
      step (true, b) (extended a w e) =
          let size : length a.items < server_id_start =
            omega (arith, ap length e, length-append (entries_of m.side m).items (fresh ∷ [])) in
          rw (count_of-length (entries_of m.side m) (own-IsArray m.side v) (omega arith)) (
            succeeds (
              fill_slot-Inserted can_alloc flags data' _ [] m _ aligned
                (extend-IsSlot fresh [] m a v w e size)))
      step (false, b) (unextended refusal) = succeeds (no_memory v.chain refusal refl)

  -- With a sound map of fewer than 0xff000000 entries and an aligned pointer, wl_map_insert_new
  -- stays within its arrays and ends. It returns a new id of its own side, under which the pointer
  -- and the flag are found and nothing was before; or it returns 0, since the table is full, or
  -- since no slot is free and a request for memory that is enough for one more is refused. Every other id answers as before, and the map stays sound.
  pub map_insert_new_lem :
      (free : List ℕ) (m : IdMap)
      → IsMap free m
      → length (entries_of m.side m).items + 1 < server_id_start
      → Succeeds (Inserted can_alloc flags data' m) (map_insert_new can_alloc fresh flags data' m)
  map_insert_new_lem [] m v small = insert_new-extend m v small
  map_insert_new_lem (i ∷ free) m v small = insert_new-reuse i free m v small

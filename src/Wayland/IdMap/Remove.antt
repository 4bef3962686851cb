-- ===== src/Wayland/IdMap/Remove.antt =====
-- wl_map_remove: the id is gone, and is the next to be given out.
use k1os.Prelude.{
  subst, ℕ, ◌+◌, ◌*◌, ◌/◌, ◌%◌, ◌^◌, ◌<◌, ◌≤◌, ◌≡◌, refl, sym, ◌∙◌, ◌≢◌, ap, Bool, ◌&&◌, some, List,
  ◌∷◌, arith, ◌==◌, if◌then◌else◌, length, set, get_or, length-set, get_or-set, Succeeds, succeeds,
  ◌>>=◌, get_elem?-eq-get_or, ==_refl, ==_ne, le→ltb,
}
use k1os.Wayland.Array.{Array}
use k1os.Wayland.IdMap.{
  IdMap, same_side, entries_of, side_of, index_of, base, store, max_objects, server_id_start,
  fill_slot, map_insert_new, map_remove,
}
use k1os.Wayland.IdMap.Invariant.{
  IsMap, IsChain, IsChain-set, NotIn, slot, as_slot, id_of, own-IsArray,
}
use k1os.Wayland.IdMap.Store.{
  Alike, Alike-slot, IsUnused, free-IsUnused, other_id, slot-store, store-IsMap, same_side_refl,
  entries_of-store,
}

-- An id of the map's own side whose slot is in use.
pub record IsLive (free : List ℕ) (m : IdMap) (id : ℕ) : Type 0 where
  pub owner : side_of id ≡ m.side
  pub inside : index_of id < length (entries_of m.side m).items
  pub bounded : index_of id ≤ max_objects
  pub used : NotIn (index_of id) free

-- What wl_map_remove does to a map.
pub record Removed (free : List ℕ) (m : IdMap) (id : ℕ) (m' : IdMap) : Type 0 where
  pub valid : IsMap (index_of id ∷ free) m'
  pub gone : IsUnused m' id
  pub others : (j : ℕ) → j ≢ id → Alike m m' j
  pub side : m'.side ≡ m.side
  pub kept : length (entries_of m'.side m').items ≡ length (entries_of m.side m).items

module _ (free : List ℕ) (m : IdMap) (id : ℕ) (v : IsMap free m) (live : IsLive free m id)
    (small : length (entries_of m.side m).items < server_id_start) where
  abbrev i : ℕ
  i = index_of id

  abbrev cleared : IdMap
  cleared = record (store m.side i m.free_list m) { free_list = i * 2 + 1 }

  entries-cleared :
      (entries_of m.side cleared).items ≡ set (entries_of m.side m).items i m.free_list
  entries-cleared = ap (λ (a : Array ℕ). a.items) (entries_of-store m.side i m.free_list m)

  stored :
      (j : ℕ)
      → slot cleared j ≡ (
          if same_side (side_of j) m.side && i == index_of j then as_slot m.free_list else slot m j)
  stored j = slot-store m.side i m.free_list m j (own-IsArray m.side v) (omega arith) live.inside

  cleared-IsMap : IsMap (i ∷ free) cleared
  cleared-IsMap =
      let w = store-IsMap free i m.free_list m v live.inside live.used in
      let words = (entries_of m.side m).items in
      let link : get_or (set words i m.free_list) i 0 ≡ m.free_list =
        get_or-set words i i m.free_list 0 live.inside ∙ rw (==_refl i) refl in
      let rest = IsChain-set words m.free_list free i m.free_list live.inside live.used v.chain in
      let c : IsChain (set words i m.free_list) (i * 2 + 1) (i ∷ free) =
        (refl, rw length-set live.inside, live.bounded, live.used, rw link rest) in
      record {
        clients = w.clients;
        servers = w.servers;
        chain = subst (λ ws. IsChain ws (i * 2 + 1) (i ∷ free)) (sym entries-cleared) c;
      }

  own-id : id ≡ i + base m.side
  own-id = rw live.owner at (id_of id)

  cleared-Removed : Removed free m id cleared
  cleared-Removed = record {
    valid = cleared-IsMap;
    gone =
        free-IsUnused cleared id m.free_list free (entries_of m.side m).items
          (stored id ∙ rw (live.owner, same_side_refl m.side, ==_refl i) refl) v.chain;
    others = λ j h.
        Alike-slot m cleared j (stored j ∙ rw (other_id m.side i j (λ e. h (e ∙ sym own-id))));
    side = refl;
    kept = rw (entries-cleared, length-set) refl;
  }

  removes : map_remove id m ≡ some cleared
  unfolding map_remove
  removes =
      let read = get_elem?-eq-get_or (entries_of m.side m).items i 0 live.inside in
      let wrap : (i * 2 + 1) % 2 ^ 32 ≡ i * 2 + 1 = omega (arith, live.bounded) in
      rw (live.owner, same_side_refl m.side, read, wrap) refl

  -- Removing an id in use from a sound map of fewer than 0xff000000 entries stays
  -- within the array and keeps the map sound: nothing is found under it any more, every other id
  -- answers as before, and its slot is the head of the free list.
  pub map_remove_lem : Succeeds (Removed free m id) (map_remove id m)
  map_remove_lem = rw removes (succeeds cleared-Removed)

  insert-cleared :
      (can_alloc : ℕ → Bool) (fresh flags data' : ℕ)
      → Succeeds (λ r. r.0 ≡ id) (map_insert_new can_alloc fresh flags data' cleared)
  unfolding map_insert_new fill_slot
  insert-cleared can_alloc fresh flags data' =
      let words = (entries_of m.side cleared).items in
      let inside : i < length words = rw (entries-cleared, length-set) live.inside in
      let half : (i * 2 + 1) / 2 ≡ i = omega arith in
      rw
        (
          ==_ne (i * 2 + 1) 0 (omega arith),
          half,
          get_elem?-eq-get_or words i 0 inside,
          le→ltb max_objects i live.bounded,
        )
        (succeeds (sym own-id))

  -- After an id in use is removed from a sound map of fewer than 0xff000000 entries, that id is the
  -- one that wl_map_insert_new returns next, whatever memory is left.
  pub map_insert_new-map_remove :
      (can_alloc : ℕ → Bool) (fresh flags data' : ℕ)
      → Succeeds (λ r. r.0 ≡ id) (map_remove id m >>= map_insert_new can_alloc fresh flags data')
  map_insert_new-map_remove can_alloc fresh flags data' =
      rw removes (insert-cleared can_alloc fresh flags data')

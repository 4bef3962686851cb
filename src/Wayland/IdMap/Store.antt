-- ===== src/Wayland/IdMap/Store.antt =====
-- A write to one slot of struct wl_map, and the word that is written.
use k1os.Prelude.{
  ◌∙◌, ℕ, ◌+◌, ◌%◌, ◌^◌, ◌<◌, ◌≡◌, refl, ◌≢◌, Bool, true, false, ◌&&◌, none, some, List, arith,
  ◌++◌, ◌∷◌, [], Succeeds, succeeds, Succeeds-bind, ◌==◌, if◌then◌else◌, length, set,
}
use k1os.Wayland.Array.{Array}
use k1os.Wayland.Array.Laws.{IsArray, IsRefused, Added, array_add-Added}
use k1os.Wayland.IdMap.{
  IdMap, Side, server, client, same_side, entries_of, entry_size, map_lookup, map_lookup_flags,
  map_entry_is_free, map_entry_get_data, map_entry_get_flags, tagged, side_of, index_of, base,
  store, with_entries, add_entry, server_id_start,
}
use k1os.Wayland.IdMap.Invariant.{
  IsMap, IsChain, NotIn, IsChain-set, IsArray-set, slot, as_slot, live_entry-set, id_of,
}

-- An aligned pointer keeps its bits beside the flag.
pub tagged_fields :
    (flags data' : ℕ)
    → data' % 4 ≡ 0
    → (map_entry_is_free (tagged flags data') ≡ false)
      × (map_entry_get_data (tagged flags data') ≡ data')
      × (map_entry_get_flags (tagged flags data') ≡ flags % 2)
unfolding tagged map_entry_is_free map_entry_get_data map_entry_get_flags
tagged_fields flags data' h = ground arith

pub slot-store :
    (s : Side) (i word : ℕ) (m : IdMap) (j : ℕ)
    → IsArray entry_size (entries_of s m)
    → length (entries_of s m).items < 2 ^ 32
    → i < length (entries_of s m).items
    → slot (store s i word m) j
      ≡ (if same_side (side_of j) s && i == index_of j then as_slot word else slot m j)
slot-store client i word m j v small h =
    ground (arith, live_entry-set m.client_entries v small i (index_of j) word h)
slot-store server i word m j v small h =
    ground (arith, live_entry-set m.server_entries v small i (index_of j) word h)

pub same_side_refl : (s : Side) → same_side s s ≡ true
same_side_refl client = refl
same_side_refl server = refl

pub entries_of-with : (s : Side) (a : Array ℕ) (m : IdMap) → entries_of s (with_entries s a m) ≡ a
entries_of-with client a m = refl
entries_of-with server a m = refl

pub entries_of-store :
    (s : Side) (i word : ℕ) (m : IdMap)
    → entries_of s (store s i word m)
      ≡ record (entries_of s m) { items = set (entries_of s m).items i word }
entries_of-store client i word m = refl
entries_of-store server i word m = refl

abbrev pub map_of : Side → Array ℕ → Array ℕ → ℕ → IdMap
map_of s clients servers link = record {
  client_entries = clients;
  server_entries = servers;
  side = s;
  free_list = link;
}

pub store-IsMap :
    (free : List ℕ) (i word : ℕ) (m : IdMap)
    → IsMap free m
    → i < length (entries_of m.side m).items
    → NotIn i free
    → IsMap free (store m.side i word m)
store-IsMap free i word m = by_side m.side m.client_entries m.server_entries m.free_list
  where
    by_side :
        (s : Side) (a b : Array ℕ) (link : ℕ)
        → IsMap free (map_of s a b link)
        → i < length (entries_of s (map_of s a b link)).items
        → NotIn i free
        → IsMap free (store s i word (map_of s a b link))
    by_side client a b link v h n = record {
      clients = IsArray-set a i word v.clients;
      servers = v.servers;
      chain = IsChain-set a.items link free i word h n v.chain;
    }
    by_side server a b link v h n = record {
      clients = v.clients;
      servers = IsArray-set b i word v.servers;
      chain = IsChain-set b.items link free i word h n v.chain;
    }

-- The id of a slot names that slot, and no other id does.
pub id_fields :
    (s : Side) (i : ℕ)
    → i < server_id_start
    → (side_of (i + base s) ≡ s) × (index_of (i + base s) ≡ i)
id_fields client i h = (ground arith, ground arith)
id_fields server i h = (ground arith, ground arith)

pub other_id :
    (s : Side) (i j : ℕ) → j ≢ i + base s → (same_side (side_of j) s && i == index_of j) ≡ false
other_id client i j h = ground (arith, id_of j)
other_id server i j h = ground (arith, id_of j)

-- Two maps answer alike about an id.
abbrev pub Alike : IdMap → IdMap → ℕ → Type 0
Alike m m' j = (map_lookup m' j ≡ map_lookup m j) × (map_lookup_flags m' j ≡ map_lookup_flags m j)

pub Alike-slot : (m m' : IdMap) (j : ℕ) → slot m' j ≡ slot m j → Alike m m' j
unfolding map_lookup map_lookup_flags
Alike-slot m m' j e = (rw (e, map_lookup), rw (e, map_lookup_flags))

-- What a lookup answers by the slot that it finds.
pub lookup-word :
    (m : IdMap) (j word : ℕ)
    → slot m j ≡ some word
    → (map_lookup m j ≡ map_entry_get_data word) × (map_lookup_flags m j ≡ map_entry_get_flags word)
unfolding map_lookup map_lookup_flags
lookup-word m j word e = (rw (e, map_lookup), rw (e, map_lookup_flags))

-- Nothing is found under an id.
abbrev pub IsUnused : IdMap → ℕ → Type 0
IsUnused m j = (map_lookup m j ≡ 0) × (map_lookup_flags m j ≡ 0)

pub IsUnused-none : (m : IdMap) (j : ℕ) → slot m j ≡ none → IsUnused m j
unfolding map_lookup map_lookup_flags
IsUnused-none m j e = (rw (e, map_lookup), rw (e, map_lookup_flags))

pub IsUnused-zero : (m : IdMap) (j : ℕ) → slot m j ≡ some 0 → IsUnused m j
unfolding map_entry_get_data map_entry_get_flags
IsUnused-zero m j e = lookup-word m j 0 e

-- What the addition of an entry to the array of `s` leaves.
pub data Extended (can_alloc : ℕ → Bool) (s : Side) (fresh : ℕ) (m : IdMap)
    : Bool × IdMap → Type 0 where
  extended :
      (a : Array ℕ)
      → IsArray entry_size a
      → a.items ≡ (entries_of s m).items ++ fresh ∷ []
      → Extended can_alloc s fresh m (true, with_entries s a m)
  unextended :
      {b : IdMap}
      → IsRefused can_alloc ((entries_of s m).size + entry_size)
      → Extended can_alloc s fresh m (false, b)

pub add_entry-Extended :
    (can_alloc : ℕ → Bool) (fresh : ℕ) (s : Side) (m : IdMap)
    → IsArray entry_size (entries_of s m)
    → length (entries_of s m).items < 2 ^ 32
    → Succeeds (Extended can_alloc s fresh m) (add_entry can_alloc fresh s m)
add_entry-Extended can_alloc fresh s m v small =
    Succeeds-bind
      (array_add-Added can_alloc entry_size (fresh ∷ []) (entries_of s m) (omega arith) v
        (omega arith))
      step
  where
    step :
        (r : Bool × Array ℕ)
        → Added can_alloc entry_size (fresh ∷ []) (entries_of s m) r
        → Succeeds (Extended can_alloc s fresh m) (some (r.0, with_entries s r.1 m))
    step (true, a) (w, e, _) = succeeds (extended a w e)
    step (false, a) (_, _, refusal) = succeeds (unextended refusal)

-- A free slot answers nothing.
pub free-IsUnused :
    (m : IdMap) (id word : ℕ) (free words : List ℕ)
    → slot m id ≡ as_slot word
    → IsChain words word free
    → IsUnused m id
unfolding map_entry_is_free
free-IsUnused m id word [] words e c = IsUnused-zero m id (e ∙ rw c refl)
free-IsUnused m id word (j ∷ free) words e c = IsUnused-none m id (e ∙ ground (arith, c.0))

-- ===== src/Wayland/IdMap.antt =====
-- struct wl_map of packages/wayland/build/src/wayland-util.c: the table from object ids to objects.
pub mod Invariant
mod Store
pub mod Insert
pub mod Remove
pub mod Visit
use k1os.Prelude.{
  zero, suc, ◌>>=◌, ℕ, ◌+◌, ◌-◌, ◌*◌, ◌/◌, ◌%◌, ◌^◌, Bool, true, false, not, ◌&&◌, Option, none,
  some, List, [], ◌∷◌, ◌>>=◌, ltb, ◌==◌, if◌then◌else◌, length, get_elem?, get_or, set,
}
use k1os.Wayland.Array.{Array, array_init, array_add}

-- An entry is a word of 64 bits: a pointer, whose two low bits are 0 and then hold the flag, or a
-- link of the free list, with its lowest bit set.
unfoldable pub map_entry_is_free : ℕ → Bool
map_entry_is_free entry = entry % 2 == 1

unfoldable pub map_entry_get_data : ℕ → ℕ
map_entry_get_data entry = entry / 4 * 4

unfoldable pub map_entry_get_flags : ℕ → ℕ
map_entry_get_flags entry = entry / 2 % 2

abbrev pub server_id_start : ℕ
server_id_start = 0xff00_0000

abbrev pub max_objects : ℕ
max_objects = 0x00f0_0000

-- sizeof (union map_entry)
abbrev pub entry_size : ℕ
entry_size = 8

pub data Side : Type 0 where
  server client : Side

pub data Errno : Type 0 where
  enospc einval enomem erange e2big eoverflow eagain eintr other : Errno

pub record IdMap : Type 0 where
  pub client_entries : Array ℕ
  pub server_entries : Array ℕ
  pub side : Side
  pub free_list : ℕ

unfoldable pub map_init : Side → IdMap
map_init side = record {
  client_entries = array_init;
  server_entries = array_init;
  side = side;
  free_list = 0;
}

abbrev pub same_side : Side → Side → Bool
same_side client client = true
same_side server server = true
same_side _ _ = false

-- The array that an operation works on, and the map with that array replaced.
abbrev pub entries_of : Side → IdMap → Array ℕ
entries_of s m = elim s [ client ↦ m.client_entries | server ↦ m.server_entries ]

abbrev pub with_entries : Side → Array ℕ → IdMap → IdMap
with_entries s a m = record m {
  client_entries = elim s [ client ↦ a | server ↦ m.client_entries ];
  server_entries = elim s [ client ↦ m.server_entries | server ↦ a ];
}

-- Ids from `server_id_start` on are the server's.
abbrev pub side_of : ℕ → Side
side_of i = if ltb i server_id_start then client else server

abbrev pub base : Side → ℕ
base client = 0
base server = server_id_start

abbrev pub index_of : ℕ → ℕ
index_of i = if ltb i server_id_start then i else i - server_id_start

-- `entry->data = data; entry->next |= (flags & 0x1) << 1;`
unfoldable pub tagged : ℕ → ℕ → ℕ
tagged flags data' = if (flags % 2 == 1) && (data' / 2 % 2 == 0) then data' + 2 else data'

-- `start[i] = word` in the array of `s`.
abbrev pub store : Side → ℕ → ℕ → IdMap → IdMap
store s i word m =
    let a = entries_of s m in with_entries s (record a { items = set a.items i word }) m

-- `uint32_t count = entries->size / sizeof *start;`
abbrev pub count_of : Array ℕ → ℕ
count_of a = a.size / entry_size % 2 ^ 32

-- A return code: 0, or -1 with errno set.
pub data Status : Type 0 where
  ok : Status
  failed : Errno → Status

-- What follows the choice of a slot in wl_map_insert_new.
unfoldable pub fill_slot : ℕ → ℕ → ℕ → IdMap → ℕ × IdMap
fill_slot flags data' count m =
    if ltb max_objects count
    then (0, store m.side count 0 m)
    else (count + base m.side, store m.side count (tagged flags data') m)

-- `can_alloc` says which requests for memory are met, and `fresh` is what new memory holds.
-- `none` is an access outside the array, or a loop that does not end.
module _ (can_alloc : ℕ → Bool) (fresh : ℕ) where
  abbrev pub add_entry : Side → IdMap → Option (Bool × IdMap)
  add_entry s m = do
    (done, a) ← array_add can_alloc entry_size (fresh ∷ []) (entries_of s m)
    some (done, with_entries s a m)

  -- The id, or 0 for a failure.
  unfoldable pub map_insert_new : ℕ → ℕ → IdMap → Option (ℕ × IdMap)
  map_insert_new flags data' m =
      let entries = entries_of m.side m in
      let reuse : Option (ℕ × IdMap) = (do
        next ← get_elem? entries.items (m.free_list / 2)
        some (fill_slot flags data' (m.free_list / 2) (record m { free_list = next % 2 ^ 32 }))) in
      let extend : Option (ℕ × IdMap) = (do
        (done, m') ← add_entry m.side m
        some (if done then fill_slot flags data' (count_of entries) m' else (0, m))) in
      if m.free_list == 0 then extend else reuse

  unfoldable pub map_insert_at : ℕ → ℕ → ℕ → IdMap → Option (Status × IdMap)
  map_insert_at flags id data' m =
      let s = side_of id in
      let i = index_of id in
      let count = count_of (entries_of s m) in
      let write = λ (m' : IdMap). store s i (tagged flags data') m' in
      let extend : Option (Status × IdMap) = (do
        (done, m') ← add_entry s m
        some (if done then (ok, write m') else (failed enomem, m))) in
      if ltb max_objects i
      then some (failed enospc, m)
      else if ltb count i
      then some (failed einval, m)
      else if count == i
      then extend
      else some (ok, write m)

  unfoldable pub map_reserve_new : ℕ → IdMap → Option (Status × IdMap)
  map_reserve_new id m =
      let s = side_of id in
      let i = index_of id in
      let entries = entries_of s m in
      let extend : Option (Status × IdMap) = (do
        (done, m') ← add_entry s m
        some (if done then (ok, store s i 0 m') else (failed enomem, m))) in
      let check : Option (Status × IdMap) = (do
        word ← get_elem? entries.items i
        some (if word == 0 then (ok, m) else (failed einval, m))) in
      if same_side s m.side
      then some (failed einval, m)
      else if ltb max_objects i
      then some (failed enospc, m)
      else if ltb (count_of entries) i
      then some (failed einval, m)
      else if count_of entries == i
      then extend
      else check

unfoldable pub map_remove : ℕ → IdMap → Option IdMap
map_remove id m =
    let i = index_of id in
    let push : Option IdMap = (do
      _ ← get_elem? (entries_of m.side m).items i
      some (record (store m.side i m.free_list m) { free_list = (i * 2 + 1) % 2 ^ 32 })) in
    if same_side (side_of id) m.side then push else some m

-- The entry of an id in use: `i < count && !map_entry_is_free(start[i])`.
unfoldable pub live_entry : Array ℕ → ℕ → Option ℕ
unfolding map_entry_is_free
live_entry a i =
    let word = get_or a.items i 0 in
    if ltb i (count_of a) && not (map_entry_is_free word) then some word else none

-- The pointer, or 0 for NULL.
unfoldable pub map_lookup : IdMap → ℕ → ℕ
unfolding map_entry_get_data
map_lookup m id = elim (live_entry (entries_of (side_of id) m) (index_of id)) [
  | none ↦ 0
  | some word ↦ map_entry_get_data word
]

unfoldable pub map_lookup_flags : IdMap → ℕ → ℕ
unfolding map_entry_get_flags
map_lookup_flags m id = elim (live_entry (entries_of (side_of id) m) (index_of id)) [
  | none ↦ 0
  | some word ↦ map_entry_get_flags word
]

-- wl_map_for_each with a callback on the map and a state `S`, which says whether to go on. `none` is a
-- read through `start` where the array has since been given new memory, or past its end.
module _ {S : Type 0} (func : ℕ → ℕ → IdMap × S → Bool × (IdMap × S)) where
  abbrev pub is_visited : ℕ → Bool
  is_visited entry = not (entry == 0) && not (map_entry_is_free entry)

  -- The rounds that are left, from `idx` on; `alloc` is that of the array at the start.
  unfoldable pub for_each_helper : Side → ℕ → ℕ → ℕ → IdMap × S → Option (Bool × (IdMap × S))
  for_each_helper side alloc zero idx s = some (true, s)
  for_each_helper side alloc (suc rounds) idx s =
      let a = entries_of side s.0 in
      (if a.alloc == alloc then get_elem? a.items idx else none) >>= λ entry.
      elim (is_visited entry) [
        | true ↦
            let visited = func (map_entry_get_data entry) (map_entry_get_flags entry) s in
            elim visited.0 [
              | true ↦ for_each_helper side alloc rounds (idx + 1) visited.1
              | false ↦ some visited
            ]
        | false ↦ for_each_helper side alloc rounds (idx + 1) s
      ]

  -- The array of `side`, from its start.
  abbrev pub for_each_of : Side → IdMap × S → Option (Bool × (IdMap × S))
  for_each_of side s =
      let a = entries_of side s.0 in for_each_helper side a.alloc (a.size / entry_size) 0 s

  unfoldable pub map_for_each : IdMap → S → Option (IdMap × S)
  map_for_each m s = do
    (go_on, s') ← for_each_of client (m, s)
    let later = for_each_of server s' >>= λ r. some r.1
    if go_on then later else some s'

-- ===== src/Wayland/IdMap/Invariant.antt =====
-- The invariant of struct wl_map: its arrays are sound, and its free list is a chain through slots
-- of the map's own side.
use k1os.Prelude.{
  ap, dec_lt, ℕ, ◌+◌, ◌*◌, ◌^◌, ◌≤◌, ◌<◌, ◌≡◌, ◌≢◌, ◌++◌, Option, none, some, List, [], ◌∷◌, arith,
  ltb, if◌then◌else◌, length, get_or, set, length-set, length-append, get_or-set,
  get_or-append_left, ◌==◌,
}
use k1os.Wayland.Array.{Array}
use k1os.Wayland.Array.Laws.{IsArray}
use k1os.Wayland.IdMap.{
  IdMap, Side, server, client, entries_of, entry_size, max_objects, live_entry, map_entry_is_free,
  side_of, index_of, base, count_of,
}

abbrev pub NotIn : ℕ → List ℕ → Type 0
NotIn i [] = Unit
NotIn i (j ∷ js) = (i ≢ j) × NotIn i js

-- `link` heads a chain through the slots `free`, each named once.
abbrev pub IsChain : List ℕ → ℕ → List ℕ → Type 0
IsChain words link [] = link ≡ 0
IsChain words link (i ∷ free) =
    (link ≡ i * 2 + 1)
    × (i < length words)
    × (i ≤ max_objects)
    × NotIn i free
    × IsChain words (get_or words i 0) free

pub record IsMap (free : List ℕ) (m : IdMap) : Type 0 where
  pub clients : IsArray entry_size m.client_entries
  pub servers : IsArray entry_size m.server_entries
  pub chain : IsChain (entries_of m.side m).items m.free_list free

pub IsChain-set :
    (words : List ℕ) (link : ℕ) (free : List ℕ) (i word : ℕ)
    → i < length words
    → NotIn i free
    → IsChain words link free
    → IsChain (set words i word) link free
IsChain-set words link [] i word h n c = c
IsChain-set words link (j ∷ free) i word h (ne, n) (l, lt, le, out, c) = (
  l,
  omega (arith, length-set words i word),
  le,
  out,
  ground
      (arith, get_or-set words i j word 0, IsChain-set words (get_or words j 0) free i word h n c),
)

pub IsChain-append :
    (words more : List ℕ) (link : ℕ) (free : List ℕ)
    → IsChain words link free
    → IsChain (words ++ more) link free
IsChain-append words more link [] c = c
IsChain-append words more link (j ∷ free) (l, lt, le, out, c) = (
  l,
  omega (arith, length-append words more),
  le,
  out,
  rw (get_or-append_left words more j 0 lt) (IsChain-append words more (get_or words j 0) free c),
)

-- What a lookup finds in the slot of an id.
abbrev pub slot : IdMap → ℕ → Option ℕ
slot m id = live_entry (entries_of (side_of id) m) (index_of id)

abbrev pub as_slot : ℕ → Option ℕ
as_slot word = if map_entry_is_free word then none else some word

pub count_of-length :
    (a : Array ℕ) → IsArray entry_size a → length a.items < 2 ^ 32 → count_of a ≡ length a.items
count_of-length a v h = omega arith

module _ (a : Array ℕ) (v : IsArray entry_size a) (small : length a.items < 2 ^ 32) where
  pub live_entry_lem :
      (j : ℕ)
      → live_entry a j ≡ (if ltb j (length a.items) then as_slot (get_or a.items j 0) else none)
  unfolding live_entry
  live_entry_lem j = ground (arith, count_of-length a v small)

  pub live_entry-out : (j : ℕ) → length a.items ≤ j → live_entry a j ≡ none
  live_entry-out j h = ground (arith, live_entry_lem j)

pub IsArray-set :
    (a : Array ℕ) (i word : ℕ)
    → IsArray entry_size a
    → IsArray entry_size (record a { items = set a.items i word })
IsArray-set a i word v = record {
  sized = omega (arith, v.sized, length-set a.items i word);
  fits = v.fits;
}

module _ (a : Array ℕ) (v : IsArray entry_size a) (small : length a.items < 2 ^ 32) where
  pub live_entry-set :
      (i j word : ℕ)
      → i < length a.items
      → live_entry (record a { items = set a.items i word }) j
        ≡ (if i == j then as_slot word else live_entry a j)
  live_entry-set i j word h =
      let v' = IsArray-set a i word v in
      let small' : length (set a.items i word) < 2 ^ 32 = rw length-set small in
      ground (
        arith,
        live_entry_lem (record a { items = set a.items i word }) v' small' j,
        live_entry_lem a v small j,
        length-set a.items i word,
        get_or-set a.items i j word 0,
      )

module _ (a b : Array ℕ) (v : IsArray entry_size a) (w : IsArray entry_size b) (word : ℕ)
    (grown : b.items ≡ a.items ++ word ∷ []) (small : length b.items < 2 ^ 32) where
  pub live_entry-grown : (j : ℕ) → j ≢ length a.items → live_entry b j ≡ live_entry a j
  live_entry-grown j h =
      let size : length b.items ≡ length a.items + 1 =
        omega (arith, ap length grown, length-append a.items (word ∷ [])) in
      elim (dec_lt j (length a.items)) [
        | yes p ↦
            let kept : get_or b.items j 0 ≡ get_or a.items j 0 =
              rw grown (get_or-append_left a.items (word ∷ []) j 0 p) in
            ground (arith, live_entry_lem b w small j, live_entry_lem a v (omega arith) j)
        | no p ↦ ground (arith, live_entry-out b w small j, live_entry-out a v (omega arith) j)
      ]

-- An id is its side with its index.
pub id_of : (j : ℕ) → j ≡ index_of j + base (side_of j)
id_of j = ground arith

pub own-IsArray :
    {free : List ℕ} {m : IdMap} (s : Side) → IsMap free m → IsArray entry_size (entries_of s m)
own-IsArray client v = v.clients
own-IsArray server v = v.servers

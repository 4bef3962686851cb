-- ===== src/Wayland/Tests.antt =====
-- Runs of the library's model at concrete inputs, and its theorems at inputs that meet their
-- hypotheses.
use mathlib.Core.List.{flatten, map}
use k1os.Prelude.{
  ℕ, ◌+◌, ◌^◌, ◌≡◌, refl, Bool, true, false, Option, none, some, List, [], ◌∷◌, ◌++◌, arith,
  Succeeds, ◌>>=◌, ltb, ◌<◌, zero, suc, sym, subst, get_elem?,
}
use k1os.Wayland.Array.{Array, grow, array_add, array_copy}
use k1os.Wayland.Array.Laws.{Added, array_add-Added, Copied, array_copy-Copied, grow-diverges}
use k1os.Wayland.IdMap.{
  IdMap, Side, client, server, same_side, entries_of, is_visited, map_entry_get_data,
  map_entry_get_flags, map_entry_is_free, for_each_helper, map_insert_at, map_insert_new,
  map_remove, map_lookup, map_lookup_flags, map_for_each, fill_slot, live_entry, tagged,
}
use k1os.Wayland.IdMap.Invariant.{IsMap}
use k1os.Wayland.IdMap.Insert.{Inserted, map_insert_new_lem}
use k1os.Wayland.IdMap.Visit.{IsFramed, in_use, visit, map_for_each-visit}
use k1os.Wayland.IdMap.Remove.{IsLive, Removed, map_remove_lem, map_insert_new-map_remove}
use k1os.Wayland.Ring.{
  Ring, ring_put, ring_copy, ring_consume, ring_size, ring_get_iov, ring_ensure_space,
}
use k1os.Wayland.Signature.{object, array, uint, arg_count_for_signature, message_count_arrays}
use k1os.Wayland.Signature.Print.{
  Argument, print, is_version, arrays_in, read, details, no_argument, print_lem,
}
use k1os.Wayland.Cyclic.{window}
use k1os.Wayland.Ring.Contents.{
  IsRing, contents, ring_put_lem, ring_copy_lem, ring_consume_lem, ring_get_iov_lem,
}
use k1os.Wayland.Ring.Space.{Answered, ring_ensure_space_lem}

abbrev plenty : ℕ → Bool
plenty n = true

abbrev bytes : Array ℕ
bytes = record { size = 3; alloc = 16; items = 1 ∷ 2 ∷ 3 ∷ [] }

abbrev more : Array ℕ
more = record { size = 4; alloc = 4; items = 4 ∷ 5 ∷ 6 ∷ 7 ∷ [] }

abbrev words : Array ℕ
words = record { size = 16; alloc = 16; items = 64 ∷ 128 ∷ [] }

-- A client's map with the ids 0 and 2 in use, and 1 free.
abbrev table : IdMap
table = record {
  client_entries = record { size = 24; alloc = 32; items = 64 ∷ 0 ∷ 128 ∷ [] };
  server_entries = record { size = 0; alloc = 0; items = [] };
  side = client;
  free_list = 3;
}

table-IsMap : IsMap (1 ∷ []) table
table-IsMap = omega arith

grown_twice :
    array_add plenty 8 (7 ∷ []) words
    ≡ some (true, record { size = 24; alloc = 32; items = 64 ∷ 128 ∷ 7 ∷ [] })
unfolding array_add grow
grown_twice = refl

array_add-Added_example :
    Succeeds (Added plenty 8 (7 ∷ []) words) (array_add plenty 8 (7 ∷ []) words)
array_add-Added_example =
    array_add-Added plenty 8 (7 ∷ []) words (omega arith) (omega arith) (omega arith)

array_copy-Copied_example : Succeeds (Copied bytes more) (array_copy plenty (0 ∷ []) bytes more)
array_copy-Copied_example =
    array_copy-Copied plenty (0 ∷ []) bytes more (omega arith) (omega arith) (omega arith) refl

grow-diverges_example : grow 100 16 (2 ^ 63 + 1) ≡ none
grow-diverges_example = grow-diverges 100 (2 ^ 63 + 1) (omega arith)

abbrev reused : Option (ℕ × ℕ × ℕ)
reused = do
  (id, m) ← map_insert_new plenty 0 1 256 table
  some (id, map_lookup m 1, map_lookup_flags m 1)

insert_reuses : reused ≡ some (1, 256, 1)
unfolding map_insert_new fill_slot map_lookup map_lookup_flags live_entry tagged
insert_reuses = refl

map_insert_new_lem_example :
    Succeeds (Inserted plenty 1 256 table) (map_insert_new plenty 0 1 256 table)
map_insert_new_lem_example =
    map_insert_new_lem plenty 0 1 256 refl (1 ∷ []) table table-IsMap (omega arith)

two-IsLive : IsLive (1 ∷ []) table 2
two-IsLive = record {
  owner = refl;
  inside = omega arith;
  bounded = omega arith;
  used = omega arith;
}

map_remove_lem_example : Succeeds (Removed (1 ∷ []) table 2) (map_remove 2 table)
map_remove_lem_example = map_remove_lem (1 ∷ []) table 2 table-IsMap two-IsLive (omega arith)

map_insert_new-map_remove_example :
    Succeeds (λ r. r.0 ≡ 2) (map_remove 2 table >>= map_insert_new plenty 0 0 512)
map_insert_new-map_remove_example =
    map_insert_new-map_remove (1 ∷ []) table 2 table-IsMap two-IsLive (omega arith) plenty 0 0 512

-- Eight bytes, the four in use going round the end.
abbrev round : Ring
round = record {
  buf = 3 ∷ 4 ∷ 9 ∷ 9 ∷ 9 ∷ 9 ∷ 1 ∷ 2 ∷ [];
  head = 10;
  tail = 6;
  size_bits = 3;
  max_size_bits = 0;
}

round-IsRing : IsRing round
unfolding ring_size
round-IsRing = omega arith

ring_put_lem_example :
    (contents (ring_put round (5 ∷ 6 ∷ [])) ≡ contents round ++ 5 ∷ 6 ∷ [])
    × IsRing (ring_put round (5 ∷ 6 ∷ []))
unfolding ring_size
ring_put_lem_example = ring_put_lem round (5 ∷ 6 ∷ []) round-IsRing (omega arith)

ring_copy_lem_example : ring_copy round 3 ≡ 1 ∷ 2 ∷ 3 ∷ []
unfolding ring_size window
ring_copy_lem_example = ring_copy_lem round 3 round-IsRing (omega arith)

ring_consume_lem_example :
    (contents (ring_consume round 3) ≡ 4 ∷ []) × IsRing (ring_consume round 3)
unfolding ring_size window
ring_consume_lem_example = ring_consume_lem round 3 round-IsRing (omega arith)

ring_get_iov_lem_example : flatten (ring_get_iov round) ≡ contents round
unfolding ring_size
ring_get_iov_lem_example = ring_get_iov_lem round round-IsRing (omega arith)

ring_ensure_space_lem_example : Answered plenty round 100 (ring_ensure_space plenty round 100)
unfolding ring_size
ring_ensure_space_lem_example =
    ring_ensure_space_lem plenty round 100 round-IsRing (omega arith) (omega arith)

-- A server's map with two objects of the client.
abbrev pair : ℕ → ℕ → IdMap
pair v w = record {
  client_entries = record { size = 16; alloc = 16; items = v ∷ w ∷ [] };
  server_entries = record { size = 0; alloc = 0; items = [] };
  side = server;
  free_list = 0;
}

-- Clears the entry of the id 0 and adds up the pointers, up to 100.
abbrev destroy : ℕ → ℕ → IdMap × ℕ → Bool × (IdMap × ℕ)
destroy data' flags s =
    let cleared : IdMap = elim (map_insert_at plenty 0 0 0 0 s.0) [ none ↦ s.0 | some r ↦ r.1 ] in
    (ltb s.1 100, (cleared, s.1 + data'))

abbrev IsPair : IdMap × ℕ → Type 0
IsPair s = (v : ℕ) × (w : ℕ) × (s.0 ≡ pair v w)

later_same : (v w idx j : ℕ) → idx < j → get_elem? (0 ∷ w ∷ []) j ≡ get_elem? (v ∷ w ∷ []) j
later_same v w idx zero h = absurd (omega arith)
later_same v w idx (suc j) h = refl

others_same :
    (v w : ℕ) (t : Side)
    → same_side t client ≡ false
    → entries_of t (pair 0 w) ≡ entries_of t (pair v w)
others_same v w client e = cc
others_same v w server e = refl

keeps_pair :
    (side : Side) (idx entry n v w : ℕ)
    → get_elem? (entries_of side (pair v w)).items idx ≡ some entry
    → let s' = (destroy (map_entry_get_data entry) (map_entry_get_flags entry) (pair v w, n)).1 in
      IsPair s' × IsFramed side idx (pair v w) s'.0
unfolding map_insert_at tagged
keeps_pair client idx entry n v w here = (
  (0, w, refl),
  record { same_alloc = refl; later = later_same v w idx; other = others_same v w },
)
keeps_pair server idx entry n v w here = cc

keeps :
    (side : Side) (idx entry : ℕ) (s : IdMap × ℕ)
    → IsPair s
    → get_elem? (entries_of side s.0).items idx ≡ some entry
    → is_visited destroy entry ≡ true
    → let s' = (destroy (map_entry_get_data entry) (map_entry_get_flags entry) s).1 in
      IsPair s' × IsFramed side idx s.0 s'.0
keeps side idx entry (m, n) (v, w, e) here h =
    subst
      (λ m.
        get_elem? (entries_of side m).items idx ≡ some entry
        → let s' = (destroy (map_entry_get_data entry) (map_entry_get_flags entry) (m, n)).1 in
          IsPair s' × IsFramed side idx m s'.0)
      (sym e) (keeps_pair side idx entry n v w) here

map_for_each-visit_example :
    map_for_each destroy (pair 64 128) 0
    ≡ some ((visit destroy (in_use (64 ∷ 128 ∷ []) ++ in_use []) (pair 64 128, 0)).1)
map_for_each-visit_example =
    map_for_each-visit destroy IsPair keeps (pair 64 128) 0 (64, 128, refl) (omega arith)
      (omega arith)

destroyed : map_for_each destroy (pair 64 128) 0 ≡ some (pair 0 128, 192)
unfolding map_for_each for_each_helper map_insert_at tagged map_entry_get_data map_entry_get_flags
    map_entry_is_free
destroyed = refl

-- Since version 2: an object that may be null, an array and a number.
abbrev message : List Argument
message = (object, true) ∷ (array, false) ∷ (uint, false) ∷ []

two_is_version : is_version (50 ∷ []) ≡ true
unfolding is_version
two_is_version = refl

print_lem_example :
    (arg_count_for_signature ((50 ∷ []) ++ print message) ≡ 3)
    × (message_count_arrays ((50 ∷ []) ++ print message) ≡ arrays_in message)
    × (read (arg_count_for_signature ((50 ∷ []) ++ print message)) ((50 ∷ []) ++ print message)
        ≡ (map details message, no_argument))
print_lem_example = print_lem (50 ∷ []) message two_is_version

-- ===== src/Wayland/IdMap/Visit.antt =====
-- wl_map_for_each: which entries the callback sees.
use k1os.Prelude.{
  suc, ◌+◌, ◌<◌, ◌/◌, Option, some, get_elem?, length, arith, ==_eq, ℕ, ◌≡◌, refl, sym, ap, subst,
  ◌∙◌, Bool, true, false, ◌&&◌, not, List, [], ◌∷◌, ◌++◌, ◌==◌, if◌then◌else◌,
}
use k1os.Wayland.Array.{Array}
use k1os.Wayland.Array.Laws.{IsArray}
use k1os.Wayland.IdMap.{
  Side, client, server, same_side, entries_of, entry_size, is_visited, IdMap, map_entry_is_free,
  map_entry_get_data, map_entry_get_flags, for_each_helper, for_each_of, map_for_each,
}

-- The pointers and flags of the entries that hold a word other than 0 and are not free, in order.
unfoldable pub in_use : List ℕ → List (ℕ × ℕ)
in_use [] = []
in_use (word ∷ words) = elim (not (word == 0) && not (map_entry_is_free word)) [
  | true ↦ (map_entry_get_data word, map_entry_get_flags word) ∷ in_use words
  | false ↦ in_use words
]

-- What a callback makes of a list, up to where it asks to stop.
module _ {S : Type 0} (func : ℕ → ℕ → S → Bool × S) where
  unfoldable pub visit : List (ℕ × ℕ) → S → Bool × S
  visit [] s = (true, s)
  visit ((data', flags) ∷ rest) s =
      let visited = func data' flags s in
      elim visited.0 [ true ↦ visit rest visited.1 | false ↦ visited ]

  -- A list after another: only where the first is gone through.
  append_after :
      (visited : Bool × S) (k l : S → Bool × S) (next : S → Bool × S)
      → ((s : S) → k s ≡ (if (l s).0 then next (l s).1 else l s))
      → (elim visited.0 [ true ↦ k visited.1 | false ↦ visited ]) ≡ (
          let r : Bool × S = elim visited.0 [ true ↦ l visited.1 | false ↦ visited ] in
          if r.0 then next r.1 else r)
  append_after (true, s) k l next h = h s
  append_after (false, s) k l next h = refl

  visit-append :
      (xs ys : List (ℕ × ℕ)) (s : S)
      → visit (xs ++ ys) s ≡ (if (visit xs s).0 then visit ys (visit xs s).1 else visit xs s)
  unfolding visit
  visit-append [] ys s = refl
  visit-append ((data', flags) ∷ xs) ys s =
      append_after (func data' flags s) (visit (xs ++ ys)) (visit xs) (visit ys)
        (visit-append xs ys)

-- What a callback may do at the entry `idx` of `side`: the later entries of that array and the other
-- array stay, and no array gets new memory.
pub record IsFramed (side : Side) (idx : ℕ) (m m' : IdMap) : Type 0 where
  pub same_alloc : (entries_of side m').alloc ≡ (entries_of side m).alloc
  pub later :
      (j : ℕ)
      → idx < j
      → get_elem? (entries_of side m').items j ≡ get_elem? (entries_of side m).items j
  pub other : (t : Side) → same_side t side ≡ false → entries_of t m' ≡ entries_of t m

module _ {S : Type 0} (func : ℕ → ℕ → IdMap × S → Bool × (IdMap × S)) (Holds : IdMap × S → Type 0)
    (keeps : (side : Side) (idx entry : ℕ) (s : IdMap × S)
      → Holds s
      → get_elem? (entries_of side s.0).items idx ≡ some entry
      → is_visited func entry ≡ true
      → let s' = (func (map_entry_get_data entry) (map_entry_get_flags entry) s).1 in
        Holds s' × IsFramed side idx s.0 s'.0) where
  -- A walk that ends as `q`.
  record Walked (side : Side) (q : Bool × (IdMap × S)) (s : IdMap × S)
      (r : Option (Bool × (IdMap × S))) : Type 0 where
    result : r ≡ some q
    holds : Holds q.1
    other : (t : Side) → same_side t side ≡ false → entries_of t q.1.0 ≡ entries_of t s.0

  -- The words from `idx` on are those of the array.
  abbrev IsRest : Side → ℕ → ℕ → List ℕ → IdMap → Type 0
  IsRest side alloc idx words m =
      ((entries_of side m).alloc ≡ alloc)
      × ((k : ℕ) → get_elem? (entries_of side m).items (idx + k) ≡ get_elem? words k)

  IsRest-suc :
      (side : Side) (alloc idx word : ℕ) (words : List ℕ) (m : IdMap)
      → IsRest side alloc idx (word ∷ words) m
      → IsRest side alloc (idx + 1) words m
  IsRest-suc side alloc idx word words m r = (
    r.0,
    λ k.
        let next : idx + 1 + k ≡ idx + suc k = omega arith in
        ap (get_elem? (entries_of side m).items) next ∙ r.1 (suc k),
  )

  IsFramed-IsRest :
      (side : Side) (alloc idx : ℕ) (words : List ℕ) (m m' : IdMap)
      → IsFramed side idx m m'
      → IsRest side alloc (idx + 1) words m
      → IsRest side alloc (idx + 1) words m'
  IsFramed-IsRest side alloc idx words m m' f r =
      (f.same_alloc ∙ r.0, λ k. f.later (idx + 1 + k) (omega arith) ∙ r.1 k)

  -- One call, and the later ones, where there are any.
  after_call :
      (side : Side) (idx : ℕ) (s : IdMap × S) (visited : Bool × (IdMap × S))
      (r : IdMap × S → Option (Bool × (IdMap × S))) (q : IdMap × S → Bool × (IdMap × S))
      → Holds visited.1
      → IsFramed side idx s.0 visited.1.0
      → Walked side (q visited.1) visited.1 (r visited.1)
      → Walked side
          (elim visited.0 [ true ↦ q visited.1 | false ↦ visited ])
          s
          (elim visited.0 [ true ↦ r visited.1 | false ↦ some visited ])
  after_call side idx s (true, s') r q h f w = record {
    result = w.result;
    holds = w.holds;
    other = λ t e. w.other t e ∙ f.other t e;
  }
  after_call side idx s (false, s') r q h f w = record { result = refl; holds = h; other = f.other }

  -- A round, by whether the callback sees the entry.
  by_test :
      (side : Side) (word : ℕ) (later : List (ℕ × ℕ)) (s : IdMap × S)
      (r : IdMap × S → Option (Bool × (IdMap × S))) (b : Bool)
      → (b ≡ true
          → let visited = func (map_entry_get_data word) (map_entry_get_flags word) s in
            Walked side
              (elim visited.0 [ true ↦ visit func later visited.1 | false ↦ visited ])
              s
              (elim visited.0 [ true ↦ r visited.1 | false ↦ some visited ]))
      → (b ≡ false → Walked side (visit func later s) s (r s))
      → let visited = func (map_entry_get_data word) (map_entry_get_flags word) s in
        Walked side
          (visit func
            (elim b [
              | true ↦ (map_entry_get_data word, map_entry_get_flags word) ∷ later
              | false ↦ later
            ])
            s)
          s
          (elim b [
            | true ↦ elim visited.0 [ true ↦ r visited.1 | false ↦ some visited ]
            | false ↦ r s
          ])
  unfolding visit
  by_test side word later s r true seen unseen = seen refl
  by_test side word later s r false seen unseen = unseen refl

  walk :
      (side : Side) (alloc : ℕ) (words : List ℕ) (idx : ℕ) (s : IdMap × S)
      → Holds s
      → IsRest side alloc idx words s.0
      → Walked side
          (visit func (in_use words) s)
          s
          (for_each_helper func side alloc (length words) idx s)
  unfolding for_each_helper in_use visit
  walk side alloc [] idx s h r = record { result = refl; holds = h; other = λ t e. refl }
  walk side alloc (word ∷ words) idx s h r =
      let here : get_elem? (entries_of side s.0).items idx ≡ some word =
        ap (get_elem? (entries_of side s.0).items) (omega arith) ∙ r.1 0 in
      let rest = IsRest-suc side alloc idx word words s.0 r in
      let visited = func (map_entry_get_data word) (map_entry_get_flags word) s in
      rw (==_eq _ _ r.0, here)
        (by_test side word (in_use words) s
          (for_each_helper func side alloc (length words) (idx + 1)) (is_visited func word)
          (λ e.
            let k = keeps side idx word s h here e in
            after_call side idx s visited (for_each_helper func side alloc (length words) (idx + 1))
              (visit func (in_use words)) k.0 k.1
              (walk side alloc words (idx + 1) visited.1 k.0
                (IsFramed-IsRest side alloc idx words s.0 visited.1.0 k.1 rest)))
          (λ e. walk side alloc words (idx + 1) s h rest))

  for_each_of-Walked :
      (side : Side) (s : IdMap × S)
      → Holds s
      → IsArray entry_size (entries_of side s.0)
      → Walked side (visit func (in_use (entries_of side s.0).items) s) s (for_each_of func side s)
  for_each_of-Walked side s h v =
      let rounds : (entries_of side s.0).size / entry_size ≡ length (entries_of side s.0).items =
        omega (arith, v.sized) in
      rw rounds (
        walk side _ (entries_of side s.0).items 0 s h
          (refl, λ k. ap (get_elem? (entries_of side s.0).items) (omega arith)))

  last_state :
      (r x : Bool × (IdMap × S))
      → (if r.0 then some x.1 else some r.1) ≡ some ((if r.0 then x else r).1)
  last_state (true, s) x = refl
  last_state (false, s) x = refl

  -- A walk of sound arrays with a callback that leaves the later entries of the array that is walked
  -- through and the other array as they are, with no new memory for either, as one that removes the
  -- entry at hand does, reads only within the arrays. Its outcome is what the calls on these entries
  -- make of the map and the state: those that hold a word other than 0 and are not in the free
  -- list when the walk begins, each with its pointer and its flag, the client's before the server's
  -- and in the order of the ids, up to the first call that asks to stop. What the callback relies on
  -- may hold of the map and the state at first and be kept by it.
  pub map_for_each-visit :
      (m : IdMap) (s : S)
      → Holds (m, s)
      → IsArray entry_size m.client_entries
      → IsArray entry_size m.server_entries
      → map_for_each func m s
        ≡ some
            ((visit func (in_use m.client_entries.items ++ in_use m.server_entries.items) (m, s)).1)
  unfolding map_for_each
  map_for_each-visit m s h v w =
      let servers = in_use m.server_entries.items in
      let q = visit func (in_use m.client_entries.items) (m, s) in
      let c = for_each_of-Walked client (m, s) h v in
      let same : entries_of server q.1.0 ≡ m.server_entries = c.other server refl in
      let d = for_each_of-Walked server q.1 c.holds (subst (IsArray entry_size) (sym same) w) in
      let d' : for_each_of func server q.1 ≡ some (visit func servers q.1) =
        d.result ∙ ap (λ (a : Array ℕ). some (visit func (in_use a.items) q.1)) same in
      rw (c.result, d')
        (last_state q (visit func servers q.1)
          ∙ ap (λ (x : Bool × (IdMap × S)). some (x.1))
              (sym (visit-append func (in_use m.client_entries.items) servers (m, s))))

-- ===== src/Wayland/Links/Laws.antt =====
-- What wl_list_insert and wl_list_remove of packages/wayland/build/src/wayland-util.c keep.
use k1os.Prelude.{
  ◌≢◌, ℕ, ◌≡◌, Bool, true, false, arith, ◌==◌, if◌then◌else◌, Bool-cases, ==_ne, ==_eq, ==_refl,
  inl, inr, refl, sym, ap, subst, ◌∙◌,
}
use k1os.Wayland.Links.{Links, assign, list_insert, list_remove}

-- The neighbours of a node are in use, and it is theirs.
abbrev pub IsLinkedAt : (ℕ → Bool) → Links → ℕ → Type 0
IsLinkedAt used s x =
    (used (s.next x) ≡ true)
    × (used (s.prev x) ≡ true)
    × (s.prev (s.next x) ≡ x)
    × (s.next (s.prev x) ≡ x)

-- The nodes in use are linked with each other, both ways.
abbrev pub IsLinked : (ℕ → Bool) → Links → Type 0
IsLinked used s = (x : ℕ) → used x ≡ true → IsLinkedAt used s x

abbrev pub with_node : (ℕ → Bool) → ℕ → ℕ → Bool
with_node used elm x = if x == elm then true else used x

abbrev pub without_node : (ℕ → Bool) → ℕ → ℕ → Bool
without_node used elm x = if x == elm then false else used x

==_equal : (a b : ℕ) → (a == b) ≡ true → a ≡ b
==_equal a b h = ground arith

-- What the insertion of `elm` behind `list` leaves.
pub record Inserted (used : ℕ → Bool) (s : Links) (list elm : ℕ) (s' : Links) : Type 0 where
  pub linked : IsLinked (with_node used elm) s'
  pub after_list : s'.next list ≡ elm
  pub after_elm : s'.next elm ≡ s.next list
  pub others : (x : ℕ) → used x ≡ true → x ≢ list → s'.next x ≡ s.next x

true-false : true ≡ false → ⊥
true-false p = ground arith

unused : (used : ℕ → Bool) (a b : ℕ) → used a ≡ true → used b ≡ false → (a == b) ≡ false
unused used a b h e = ==_ne a b λ same. true-false (sym h ∙ ap used same ∙ e)

flipped : (a b : ℕ) → (a == b) ≡ false → (b == a) ≡ false
flipped a b h = ground arith

different : (f : ℕ → ℕ) (a b x y : ℕ) → f a ≡ x → f b ≡ y → (x == y) ≡ false → (a == b) ≡ false
different f a b x y p q h = elim (Bool-cases (a == b)) [
  | inl same ↦ apart (sym p ∙ ap f (==_equal a b same) ∙ q)
  | inr other ↦ other
]
  where
    apart : x ≡ y → (a == b) ≡ false
    apart same = absurd (true-false (sym (==_eq x y same) ∙ h))

module _ (used : ℕ → Bool) (s : Links) (list elm : ℕ) (v : IsLinked used s) (l : used list ≡ true)
    (e : used elm ≡ false) where
  inserted_own : IsLinkedAt (with_node used elm) (list_insert s list elm) elm
  unfolding list_insert
  inserted_own =
      let apart = unused used list elm l e in
      let apart' = unused used (s.next list) elm (v list l).0 e in
      rw
        (
          flipped list elm apart,
          ==_refl elm,
          flipped (s.next list) elm apart',
          ==_refl list,
          ==_refl (s.next list),
          apart,
          apart',
        )
        ((v list l).0, l, refl, refl)

  abbrev inserted : Links
  inserted = list_insert s list elm

  inserted_next :
      (x : ℕ)
      → used x ≡ true
      → (with_node used elm (inserted.next x) ≡ true) × (inserted.prev (inserted.next x) ≡ x)
  unfolding list_insert
  inserted_next x h =
      let apart = unused used list elm l e in
      let apart' = unused used (s.next list) elm (v list l).0 e in
      let mine = unused used x elm h e in
      rw (flipped list elm apart, ==_refl elm, mine)
        (elim (Bool-cases (x == list)) [
          | inl same ↦
              rw (same, ==_refl elm, flipped (s.next list) elm apart')
                (refl, sym (==_equal x list same))
          | inr other ↦
              let there = v x h in
              rw
                (
                  other,
                  unused used (s.next x) elm there.0 e,
                  different s.prev (s.next x) (s.next list) x list there.2 (v list l).2 other,
                )
                (there.0, there.2)
        ])

  inserted_prev :
      (x : ℕ)
      → used x ≡ true
      → (with_node used elm (inserted.prev x) ≡ true) × (inserted.next (inserted.prev x) ≡ x)
  unfolding list_insert
  inserted_prev x h =
      let apart = unused used list elm l e in
      let mine = unused used x elm h e in
      rw (flipped list elm apart, ==_refl elm, mine)
        (elim (Bool-cases (x == s.next list)) [
          | inl same ↦
              rw (same, ==_refl elm, flipped list elm apart)
                (refl, sym (==_equal x (s.next list) same))
          | inr other ↦
              let there = v x h in
              rw
                (
                  other,
                  unused used (s.prev x) elm there.1 e,
                  different s.next (s.prev x) list x (s.next list) there.3 refl other,
                )
                (there.1, there.3)
        ])

  inserted_old :
      (x : ℕ) → used x ≡ true → IsLinkedAt (with_node used elm) (list_insert s list elm) x
  inserted_old x h = let n = inserted_next x h in let p = inserted_prev x h in (n.0, p.0, n.1, p.1)

  inserted-IsLinked : IsLinked (with_node used elm) (list_insert s list elm)
  inserted-IsLinked x h = elim (Bool-cases (x == elm)) [
    | inl same ↦
        subst (IsLinkedAt (with_node used elm) (list_insert s list elm)) (sym (==_equal x elm same))
          inserted_own
    | inr other ↦ inserted_old x (ap (λ (b : Bool). if b then true else used x) (sym other) ∙ h)
  ]

  -- Where the neighbours of the nodes in use are in use, and each is the neighbour of its neighbours,
  -- wl_list_insert behind a node in use keeps it so, with the new node in use, which was not before.
  -- The new node comes after that node and before the one that was next, and every other node has
  -- the next one that it had.
  pub list_insert-Inserted : Inserted used s list elm (list_insert s list elm)
  unfolding list_insert
  list_insert-Inserted =
      let apart = unused used list elm l e in
      record {
        linked = inserted-IsLinked;
        after_list = rw (==_refl list) refl;
        after_elm = rw (flipped list elm apart, ==_refl elm) refl;
        others = λ x h n. rw (unused used x elm h e, ==_ne x list n) refl;
      }

module _ (used : ℕ → Bool) (s : Links) (elm : ℕ) (v : IsLinked used s) (u : used elm ≡ true) where
  abbrev removed : Links
  removed = list_remove s elm

  read_back : assign s.next (s.prev elm) (s.next elm) elm ≡ s.next elm
  read_back = elim (Bool-cases (elm == s.prev elm)) [
    | inl same ↦ rw same refl
    | inr other ↦ rw other refl
  ]

  removed_next :
      (x : ℕ)
      → used x ≡ true
      → (x == elm) ≡ false
      → (without_node used elm (removed.next x) ≡ true) × (removed.prev (removed.next x) ≡ x)
  unfolding list_remove
  removed_next x h mine =
      let own = v elm u in
      let there = v x h in
      rw (read_back, mine)
        (elim (Bool-cases (x == s.prev elm)) [
          | inl same ↦
              let apart =
                subst (λ (y : ℕ). (y == elm) ≡ false) (==_equal x (s.prev elm) same) mine in
              rw
                (
                  same,
                  different s.prev (s.next elm) elm elm (s.prev elm) own.2 refl
                      (flipped (s.prev elm) elm apart),
                  ==_refl (s.next elm),
                )
                (own.0, sym (==_equal x (s.prev elm) same))
          | inr other ↦
              rw
                (
                  other,
                  different s.prev (s.next x) elm x (s.prev elm) there.2 refl other,
                  different s.prev (s.next x) (s.next elm) x elm there.2 own.2 mine,
                )
                (there.0, there.2)
        ])

  removed_prev :
      (x : ℕ)
      → used x ≡ true
      → (x == elm) ≡ false
      → (without_node used elm (removed.prev x) ≡ true) × (removed.next (removed.prev x) ≡ x)
  unfolding list_remove
  removed_prev x h mine =
      let own = v elm u in
      let there = v x h in
      rw (read_back, mine)
        (elim (Bool-cases (x == s.next elm)) [
          | inl same ↦
              let apart =
                subst (λ (y : ℕ). (y == elm) ≡ false) (==_equal x (s.next elm) same) mine in
              rw
                (
                  same,
                  different s.next (s.prev elm) elm elm (s.next elm) own.3 refl
                      (flipped (s.next elm) elm apart),
                  ==_refl (s.prev elm),
                )
                (own.1, sym (==_equal x (s.next elm) same))
          | inr other ↦
              rw
                (
                  other,
                  different s.next (s.prev x) elm x (s.next elm) there.3 refl other,
                  different s.next (s.prev x) (s.prev elm) x elm there.3 own.3 mine,
                )
                (there.1, there.3)
        ])

  -- Where the neighbours of the nodes in use are in use, and each is the neighbour of its neighbours,
  -- wl_list_remove of a node in use keeps it so, with that node out of use: the nodes that are left do
  -- not lead to it.
  pub list_remove-IsLinked : IsLinked (without_node used elm) (list_remove s elm)
  list_remove-IsLinked x h = elim (Bool-cases (x == elm)) [
    | inl same ↦ absurd (true-false (sym h ∙ ap (λ (b : Bool). if b then false else used x) same))
    | inr other ↦
        let h' = ap (λ (b : Bool). if b then false else used x) (sym other) ∙ h in
        let n = removed_next x h' other in let p = removed_prev x h' other in (n.0, p.0, n.1, p.1)
  ]

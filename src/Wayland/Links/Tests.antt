-- ===== src/Wayland/Links/Tests.antt =====
-- A list of two nodes, and the theorems on lists at inputs that meet their hypotheses.
use k1os.Prelude.{ℕ, ◌≡◌, refl, sym, Bool, arith, ◌==◌}
use k1os.Wayland.Links.{Links, list_insert, list_remove}
use k1os.Wayland.Links.Laws.{
  IsLinked, with_node, without_node, Inserted, list_insert-Inserted, list_remove-IsLinked,
}

-- The list at 8, with no other node.
abbrev alone : Links
alone = record { prev = λ (x : ℕ). 8; next = λ (x : ℕ). 8 }

abbrev in_use : ℕ → Bool
in_use x = x == 8

alone-IsLinked : IsLinked in_use alone
alone-IsLinked x h = let same : x ≡ 8 = ground arith in (refl, refl, sym same, sym same)

list_insert-Inserted_example : Inserted in_use alone 8 16 (list_insert alone 8 16)
list_insert-Inserted_example = list_insert-Inserted in_use alone 8 16 alone-IsLinked refl refl

pair-IsLinked : IsLinked (with_node in_use 16) (list_insert alone 8 16)
pair-IsLinked = (list_insert-Inserted in_use alone 8 16 alone-IsLinked refl refl).linked

list_remove-IsLinked_example :
    IsLinked (without_node (with_node in_use 16) 8) (list_remove (list_insert alone 8 16) 8)
list_remove-IsLinked_example =
    list_remove-IsLinked (with_node in_use 16) (list_insert alone 8 16) 8 pair-IsLinked refl

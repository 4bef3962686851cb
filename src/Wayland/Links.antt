-- ===== src/Wayland/Links.antt =====
-- wl_list of packages/wayland/build/src/wayland-util.c: nodes by their addresses, with NULL as 0.
pub mod Laws
mod Tests
use k1os.Prelude.{ℕ, Bool, ◌==◌, if◌then◌else◌}

-- The two members of each node.
pub record Links : Type 0 where
  pub prev : ℕ → ℕ
  pub next : ℕ → ℕ

abbrev pub assign : (ℕ → ℕ) → ℕ → ℕ → ℕ → ℕ
assign f a v x = if x == a then v else f x

unfoldable pub list_init : Links → ℕ → Links
list_init s list = record { prev = assign s.prev list list; next = assign s.next list list }

unfoldable pub list_insert : Links → ℕ → ℕ → Links
list_insert s list elm =
    let prev = assign s.prev elm list in
    let next = assign s.next elm (s.next list) in
    let next' = assign next list elm in record { prev = assign prev (next' elm) elm; next = next' }

unfoldable pub list_remove : Links → ℕ → Links
list_remove s elm =
    let next = assign s.next (s.prev elm) (s.next elm) in
    let prev = assign s.prev (next elm) (s.prev elm) in
    record { prev = assign prev elm 0; next = assign next elm 0 }

unfoldable pub list_empty : Links → ℕ → Bool
list_empty s list = s.next list == list

unfoldable pub list_insert_list : Links → ℕ → ℕ → Links
list_insert_list s list other =
    let prev = assign s.prev (s.next other) list in
    let next = assign s.next (prev other) (s.next list) in
    let prev' = assign prev (next list) (prev other) in
    let moved : Links = record { prev = prev'; next = assign next list (next other) } in
    if list_empty s other then s else moved

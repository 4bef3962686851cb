-- ===== src/Wayland/Array.antt =====
-- struct wl_array of packages/wayland/build/src/wayland-util.c: a growable block of memory.
pub mod Laws
use k1os.Prelude.{
  ℕ, zero, suc, ◌+◌, ◌-◌, ◌*◌, ◌%◌, ◌^◌, Bool, true, false, Option, none, some, List, [], ◌++◌,
  ◌>>=◌, ltb, if◌then◌else◌, take, drop,
}

-- `items` are the elements in use, of `size` bytes together. What lies between `size` and `alloc` is
-- indeterminate.
pub record Array {ℓ} (A : Type ℓ) : Type ℓ where
  pub size : ℕ
  pub alloc : ℕ
  pub items : List A

abbrev pub size_mod : ℕ
size_mod = 2 ^ 64

-- `while (alloc < need) alloc *= 2;` with fuel; `none` means that the fuel ran out.
unfoldable pub grow : ℕ → ℕ → ℕ → Option ℕ
grow zero alloc need = none
grow (suc fuel) alloc need =
    let rest = grow fuel (alloc * 2 % size_mod) need in if ltb alloc need then rest else some alloc

-- A `size_t` doubles 64 times at most before it is 0.
abbrev pub grow_fuel : ℕ
grow_fuel = 65

module _ {ℓ} {A : Type ℓ} where
  abbrev pub array_init : Array A
  array_init = record { size = 0; alloc = 0; items = [] }

  -- The block that holds the elements after `realloc` or `malloc`; only the first keeps them.
  abbrev resized : Array A → ℕ → Array A
  resized a alloc =
      let kept = if ltb 0 a.alloc then a.items else [] in record a { alloc = alloc; items = kept }

  abbrev extended : ℕ → List A → Array A → Array A
  extended n fresh a = record a { size = (a.size + n) % size_mod; items = a.items ++ fresh }

  -- `can_alloc` says whether a request for so many bytes is met, and `fresh` is what the `n` new
  -- bytes hold. `none` is a loop that does not end, and `false` is the returned NULL.
  unfoldable pub array_add : (ℕ → Bool) → ℕ → List A → Array A → Option (Bool × Array A)
  array_add can_alloc n fresh a = do
    alloc ← grow grow_fuel (if ltb 0 a.alloc then a.alloc else 16) ((a.size + n) % size_mod)
    let moved =
        if can_alloc alloc then some (true, extended n fresh (resized a alloc)) else some (false, a)
    if ltb a.alloc alloc then moved else some (true, extended n fresh a)

  -- For elements of one byte. `false` is the returned -1.
  unfoldable pub array_copy : (ℕ → Bool) → List A → Array A → Array A → Option (Bool × Array A)
  array_copy can_alloc fresh a source = do
    let shrunk = record a { size = source.size; items = take source.size a.items }
    let add = array_add can_alloc (source.size - a.size) fresh a
    (done, b) ← if ltb a.size source.size then add else some (true, shrunk)
    let filled = if ltb 0 source.size then source.items ++ drop source.size b.items else b.items
    if done then some (true, record b { items = filled }) else some (false, a)

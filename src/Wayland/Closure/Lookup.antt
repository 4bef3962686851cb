-- ===== src/Wayland/Closure/Lookup.antt =====
-- wl_object_is_zombie and wl_closure_lookup_objects of packages/wayland/build/src/connection.c: the ids
-- of a closure's object arguments become pointers.
pub mod Laws
use k1os.Prelude.{
  ℕ, ◌+◌, ◌≡◌, ◌≢◌, ◌↔◌, refl, sym, ap, ap₂, ◌∙◌, Bool, true, false, not, ◌&&◌, ◌||◌, Option, none,
  some, List, [], ◌∷◌, arith, ltb, ◌==◌, if◌then◌else◌, get_or, Bool-cases, inl, inr, ◌⊎◌,
}
use mathlib.Core.Option
use k1os.Wayland.IdMap.{
  IdMap, client, server, server_id_start, map_lookup, map_lookup_flags, same_side,
}
use k1os.Wayland.Signature.{ArgType, object, ArgumentDetails}
use k1os.Wayland.Closure.{Argument, name, reference, Object, Message, Closure, details_of}

-- The zombie flag is bit 0 of the flags.
unfoldable pub object_is_zombie : IdMap → ℕ → Bool
object_is_zombie m id =
    if same_side m.side server
    then false
    else if ltb id server_id_start
    then map_lookup_flags m id == 1
    else false

-- The names of two interfaces, by strcmp.
unfoldable pub interface_equal : List ℕ → List ℕ → Bool
interface_equal [] [] = true
interface_equal (a ∷ as') (b ∷ bs) = (a == b) && interface_equal as' bs
interface_equal _ _ = false

-- The arguments as they stand at the end, and whether the function returns 0.
pub record Looked : Type 0 where
  pub done : Bool
  pub args : List Argument

abbrev pub is_object : Option ArgType → Bool
is_object (some object) = true
is_object _ = false

-- `memory` is the object behind a pointer.
module _ (memory : ℕ → Object) where
  unfoldable pub has_interface : ℕ → Option (List ℕ) → Bool
  has_interface p none = true
  has_interface p (some i) = interface_equal (memory p).interface i

  -- The pointer for an id, or `none` for EINVAL.
  unfoldable pub lookup_object : IdMap → Option (List ℕ) → ℕ → Option ℕ
  lookup_object m type id =
      let found = map_lookup m id in
      let gone = object_is_zombie m id in
      let o = if gone then 0 else found in
      if not gone && ((found == 0) && not (id == 0))
      then none
      else if not (o == 0) && not (has_interface o type)
      then none
      else some o

  -- The loop from the `i`-th argument on. An argument of another type than `o` stays; where the
  -- function fails the pointer is NULL, and the later ids stay. An object argument that is not an
  -- id is a read of a member of the union that is not in use, and so is a missing argument.
  unfoldable pub lookup_from :
      IdMap → List (Option (List ℕ)) → ℕ → List ArgumentDetails → List Argument → Option Looked
  lookup_from m types i [] args = some (record { done = true; args = args })
  lookup_from m types i (d ∷ ds) [] = none
  lookup_from m types i (d ∷ ds) (name id ∷ args) =
      let rest = lookup_from m types (i + 1) ds args in
      let later =
        λ (a : Argument). Option.map (λ (l : Looked). record l { args = a ∷ l.args }) rest in
      let looked : Option Looked = elim (lookup_object m (get_or types i none) id) [
        | none ↦ some (record { done = false; args = reference 0 ∷ args })
        | some o ↦ later (reference o)
      ] in
      if is_object d.type then looked else later (name id)
  lookup_from m types i (d ∷ ds) (a ∷ args) =
      let rest = lookup_from m types (i + 1) ds args in
      let later = Option.map (λ (l : Looked). record l { args = a ∷ l.args }) rest in
      if is_object d.type then none else later

  unfoldable pub lookup_objects : IdMap → Closure → Option Looked
  lookup_objects m c = lookup_from m c.message.types 0 (details_of c.message) c.args

-- ===== src/Wayland/Closure/Lookup/Laws.antt =====
-- When wl_closure_lookup_objects of packages/wayland/build/src/connection.c succeeds, and with what.
use mathlib.Core.Option
use k1os.Prelude.{
  ℕ, ◌+◌, ◌≡◌, ◌≢◌, ◌↔◌, refl, sym, ap, ◌∙◌, true, false, Option, none, some, List, [], ◌∷◌, arith,
  get_or, subst, Bool-cases, inl, inr, ℕ_discrete,
}
use k1os.Wayland.IdMap.{IdMap, map_lookup}
use k1os.Wayland.Signature.{ArgumentDetails}
use k1os.Wayland.Closure.{
  Argument, number, text, reference, name, bytes, descriptor, Object, Closure, details_of,
}
use k1os.Wayland.Closure.Lookup.{
  object_is_zombie, interface_equal, is_object, has_interface, lookup_object, lookup_from,
  lookup_objects, Looked,
}

interface_equal_iff : (a b : List ℕ) → (interface_equal a b ≡ true) ↔ (a ≡ b)
unfolding interface_equal
interface_equal_iff [] [] = (λ _. refl, λ _. refl)
interface_equal_iff [] (y ∷ b) = (λ e. cc, λ e. cc)
interface_equal_iff (x ∷ a) [] = (λ e. cc, λ e. cc)
interface_equal_iff (x ∷ a) (y ∷ b) =
    let ih = interface_equal_iff a b in (λ e. ground (arith, ih), λ e. ground (arith, ih))

-- The interface that a message asks for.
abbrev pub IsOfType : Option (List ℕ) → Object → Type 0
IsOfType none o = Unit
IsOfType (some i) o = o.interface ≡ i

-- The pointer that an id stands for, where the types allow it.
pub data Resolves (memory : ℕ → Object) (m : IdMap) (type : Option (List ℕ)) (id o : ℕ)
    : Type 0 where
  gone : object_is_zombie m id ≡ true → o ≡ 0 → Resolves memory m type id o
  null :
      object_is_zombie m id ≡ false
      → id ≡ 0
      → map_lookup m id ≡ 0
      → o ≡ 0
      → Resolves memory m type id o
  live :
      object_is_zombie m id ≡ false
      → o ≢ 0
      → map_lookup m id ≡ o
      → IsOfType type (memory o)
      → Resolves memory m type id o

-- Arguments as they are received, from the `i`-th on, and with pointers.
pub data Resolved (memory : ℕ → Object) (m : IdMap) (types : List (Option (List ℕ)))
    : ℕ → List ArgumentDetails → List Argument → List Argument → Type 0 where
  end : {i : ℕ} {args : List Argument} → Resolved memory m types i [] args args
  other :
      {i : ℕ} {ds : List ArgumentDetails} {args args' : List Argument} (d : ArgumentDetails)
      (a : Argument)
      → is_object d.type ≡ false
      → Resolved memory m types (i + 1) ds args args'
      → Resolved memory m types i (d ∷ ds) (a ∷ args) (a ∷ args')
  object :
      {i : ℕ} {ds : List ArgumentDetails} {args args' : List Argument} (d : ArgumentDetails)
      (id o : ℕ)
      → is_object d.type ≡ true
      → Resolves memory m (get_or types i none) id o
      → Resolved memory m types (i + 1) ds args args'
      → Resolved memory m types i (d ∷ ds) (name id ∷ args) (reference o ∷ args')

module _ (memory : ℕ → Object) (m : IdMap) where
  has_interface_iff :
      (p : ℕ) (type : Option (List ℕ))
      → (has_interface memory p type ≡ true) ↔ IsOfType type (memory p)
  unfolding has_interface
  has_interface_iff p none = (λ _. tt, λ _. refl)
  has_interface_iff p (some i) = interface_equal_iff (memory p).interface i

  lookup_object-Resolves :
      (type : Option (List ℕ)) (id o : ℕ)
      → lookup_object memory m type id ≡ some o
      → Resolves memory m type id o
  unfolding lookup_object
  lookup_object-Resolves type id o h = elim (Bool-cases (object_is_zombie m id)) [
    | inl z ↦ gone z (ground arith)
    | inr z ↦ elim (ℕ_discrete (map_lookup m id) 0) [
      | yes e ↦ null z (ground arith) e (ground arith)
      | no e ↦
          let same : map_lookup m id ≡ o = ground arith in
          live z (ground arith) same ((has_interface_iff o type).0 (ground (arith, same)))
    ]
  ]

  Resolves-lookup_object :
      {type : Option (List ℕ)} {id o : ℕ}
      → Resolves memory m type id o
      → lookup_object memory m type id ≡ some o
  unfolding lookup_object
  Resolves-lookup_object (gone z e) = ground arith
  Resolves-lookup_object (null z e k e') = ground arith
  Resolves-lookup_object {type} {id} {o} (live z ne e t) =
      ground (arith, (has_interface_iff o type).1 t)

  abbrev put_first : Argument → Option Looked → Option Looked
  put_first a = Option.map (λ (l : Looked). record l { args = a ∷ l.args })

  abbrev all_found : List Argument → Option Looked
  all_found args = some (record { done = true; args = args })

  put_first-found :
      (a : Argument) (l : Option Looked) (args : List Argument)
      → put_first a l ≡ all_found args
      → (args' : List Argument) × (l ≡ all_found args') × (args ≡ a ∷ args')
  put_first-found a none args h = cc
  put_first-found a (some l) args h =
      (l.args, ground (arith, ap (Option.map Looked.done) h), ground arith)

  module _ (types : List (Option (List ℕ))) where
    lookup_from-other :
        (i : ℕ) (d : ArgumentDetails) (ds : List ArgumentDetails) (a : Argument)
        (args : List Argument)
        → is_object d.type ≡ false
        → lookup_from memory m types i (d ∷ ds) (a ∷ args)
          ≡ put_first a (lookup_from memory m types (i + 1) ds args)
    unfolding lookup_from
    lookup_from-other i d ds (name id) args h = rw h refl
    lookup_from-other i d ds (number w) args h = rw h refl
    lookup_from-other i d ds (text s) args h = rw h refl
    lookup_from-other i d ds (reference p) args h = rw h refl
    lookup_from-other i d ds (bytes b) args h = rw h refl
    lookup_from-other i d ds (descriptor k) args h = rw h refl

    Resolved-lookup_from :
        {i : ℕ} {ds : List ArgumentDetails} {args args' : List Argument}
        → Resolved memory m types i ds args args'
        → lookup_from memory m types i ds args ≡ all_found args'
    unfolding lookup_from
    Resolved-lookup_from end = refl
    Resolved-lookup_from {i} (other {ds = ds} {args = args} d a h r) =
        lookup_from-other i d ds a args h ∙ ap (put_first a) (Resolved-lookup_from r)
    Resolved-lookup_from (object d id o h k r) =
        rw (h, Resolves-lookup_object k) (ap (put_first (reference o)) (Resolved-lookup_from r))

    no_loop : {args' : List Argument} → none ≡ all_found args' → ⊥
    no_loop h = cc

    -- An object argument where the loop succeeds.
    record Found (i : ℕ) (ds : List ArgumentDetails) (a : Argument) (args args' : List Argument)
        : Type 0 where
      id : ℕ
      pointer : ℕ
      others : List Argument
      is_name : a ≡ name id
      resolves : Resolves memory m (get_or types i none) id pointer
      later : lookup_from memory m types (i + 1) ds args ≡ all_found others
      joined : args' ≡ reference pointer ∷ others

    lookup_from-object :
        (i : ℕ) (d : ArgumentDetails) (ds : List ArgumentDetails) (a : Argument)
        (args args' : List Argument)
        → is_object d.type ≡ true
        → lookup_from memory m types i (d ∷ ds) (a ∷ args) ≡ all_found args'
        → Found i ds a args args'
    unfolding lookup_from
    lookup_from-object i d ds (name id) args args' e h =
        by_result (lookup_object memory m (get_or types i none) id) refl (rw e at h)
      where
        by_result :
            (r : Option ℕ)
            → lookup_object memory m (get_or types i none) id ≡ r
            → (elim r [
              | none ↦ some (record { done = false; args = reference 0 ∷ args })
              | some o ↦ put_first (reference o) (lookup_from memory m types (i + 1) ds args)
            ])
              ≡ all_found args'
            → Found i ds (name id) args args'
        by_result none e' h' = absurd (not_done (ap (Option.map Looked.done) h'))
          where
            not_done : some false ≡ some true → ⊥
            not_done k = cc
        by_result (some o) e' h' =
            let (others, later, joined) =
              put_first-found (reference o) (lookup_from memory m types (i + 1) ds args) args' h' in
            record {
              id = id;
              pointer = o;
              others = others;
              is_name = refl;
              resolves = lookup_object-Resolves (get_or types i none) id o e';
              later = later;
              joined = joined;
            }
    lookup_from-object i d ds (number w) args args' e h = absurd (no_loop (rw e at h))
    lookup_from-object i d ds (text t) args args' e h = absurd (no_loop (rw e at h))
    lookup_from-object i d ds (reference p) args args' e h = absurd (no_loop (rw e at h))
    lookup_from-object i d ds (bytes b) args args' e h = absurd (no_loop (rw e at h))
    lookup_from-object i d ds (descriptor k) args args' e h = absurd (no_loop (rw e at h))

    lookup_from-Resolved :
        (i : ℕ) (ds : List ArgumentDetails) (args args' : List Argument)
        → lookup_from memory m types i ds args ≡ all_found args'
        → Resolved memory m types i ds args args'
    unfolding lookup_from
    lookup_from-Resolved i [] args args' h =
        let same : args ≡ args' = cc in subst (Resolved memory m types i [] args) same end
    lookup_from-Resolved i (d ∷ ds) [] args' h = cc
    lookup_from-Resolved i (d ∷ ds) (a ∷ args) args' h = elim (Bool-cases (is_object d.type)) [
      | inr e ↦
          let (others, later, joined) =
            put_first-found a (lookup_from memory m types (i + 1) ds args) args'
              (sym (lookup_from-other i d ds a args e) ∙ h) in
          subst (Resolved memory m types i (d ∷ ds) (a ∷ args)) (sym joined)
            (other d a e (lookup_from-Resolved (i + 1) ds args others later))
      | inl e ↦
          let f = lookup_from-object i d ds a args args' e h in
          subst (Resolved memory m types i (d ∷ ds) (a ∷ args)) (sym f.joined) (
            subst
              (λ x. Resolved memory m types i (d ∷ ds) (x ∷ args) (reference f.pointer ∷ f.others))
              (sym f.is_name)
              (object d f.id f.pointer e f.resolves
                (lookup_from-Resolved (i + 1) ds args f.others f.later)))
    ]

  -- wl_closure_lookup_objects succeeds with the arguments `args'` exactly where `args'` are the
  -- arguments of the closure with each id of an object argument replaced by its pointer: NULL for a
  -- zombie and for the id 0 with no entry, and for any other id the object that the map has, whose
  -- interface is the one that the message names, if it names one.
  pub lookup_objects_iff :
      (c : Closure) (args' : List Argument)
      → (lookup_objects memory m c ≡ some (record { done = true; args = args' }))
        ↔ Resolved memory m c.message.types 0 (details_of c.message) c.args args'
  unfolding lookup_objects
  lookup_objects_iff c args' = (
    lookup_from-Resolved c.message.types 0 (details_of c.message) c.args args',
    Resolved-lookup_from c.message.types,
  )

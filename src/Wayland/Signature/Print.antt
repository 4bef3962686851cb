-- ===== src/Wayland/Signature/Print.antt =====
-- Signatures that are written out, and what the functions on them read.
use mathlib.Core.List.{map}
use k1os.Prelude.{
  ℕ, suc, ◌≤◌, ◌≡◌, refl, ap, ◌∙◌, Bool, true, false, ◌&&◌, none, some, List, [], ◌∷◌, ◌++◌, arith,
  leb, ◌==◌, if◌then◌else◌, length, ==_ne,
}
use k1os.Wayland.Signature.{
  ArgType, int, uint, fixed, string, object, new_id, array, fd, letter, arg_type, ArgumentDetails,
  next_from, get_next_argument, arg_count_for_signature, message_count_arrays, arguments,
}

-- An argument: its type, and whether it may be null.
abbrev pub Argument : Type 0
Argument = ArgType × Bool

-- The signature of a list of arguments.
unfoldable pub print : List Argument → List ℕ
print [] = []
print ((t, true) ∷ args) = 63 ∷ letter t ∷ print args
print ((t, false) ∷ args) = letter t ∷ print args

-- The version in front of a signature is in decimal digits.
unfoldable pub is_version : List ℕ → Bool
is_version [] = true
is_version (c ∷ rest) = (leb 48 c && leb c 57) && is_version rest

abbrev pub details : Argument → ArgumentDetails
details (t, nullable) = record { type = some t; nullable = nullable }

abbrev is_array : ArgType → Bool
is_array array = true
is_array t = false

-- The arguments that are arrays.
unfoldable pub arrays_in : List Argument → ℕ
arrays_in [] = 0
arrays_in ((t, nullable) ∷ args) =
    let rest = arrays_in args in if is_array t then suc rest else rest

print_nil : print [] ≡ []
unfolding print
print_nil = refl

arg_type-letter : (t : ArgType) → arg_type (letter t) ≡ some t
unfolding arg_type
arg_type-letter int = refl
arg_type-letter uint = refl
arg_type-letter fixed = refl
arg_type-letter string = refl
arg_type-letter object = refl
arg_type-letter new_id = refl
arg_type-letter array = refl
arg_type-letter fd = refl

is_array-letter : (t : ArgType) → (letter t == 97) ≡ is_array t
is_array-letter int = refl
is_array-letter uint = refl
is_array-letter fixed = refl
is_array-letter string = refl
is_array-letter object = refl
is_array-letter new_id = refl
is_array-letter array = refl
is_array-letter fd = refl

arg_type-none : (c : ℕ) → c ≤ 63 → arg_type c ≡ none
unfolding arg_type
arg_type-none c h =
    rw
      (
        ==_ne c 105 (omega arith),
        ==_ne c 117 (omega arith),
        ==_ne c 102 (omega arith),
        ==_ne c 115 (omega arith),
        ==_ne c 111 (omega arith),
        ==_ne c 110 (omega arith),
        ==_ne c 97 (omega arith),
        ==_ne c 104 (omega arith),
      )
      refl

-- A character without a type, and one with a type.
module _ (c : ℕ) (rest : List ℕ) where
  next_from-none :
      (nullable : Bool)
      → arg_type c ≡ none
      → next_from nullable (c ∷ rest) ≡ next_from (if c == 63 then true else nullable) rest
  unfolding next_from
  next_from-none nullable e =
      ap
        (λ o. elim o [
          | some t ↦ (record { type = some t; nullable = nullable }, rest)
          | none ↦ next_from (if c == 63 then true else nullable) rest
        ])
        e

  next_from-some :
      (nullable : Bool) (t : ArgType)
      → arg_type c ≡ some t
      → next_from nullable (c ∷ rest) ≡ (details (t, nullable), rest)
  unfolding next_from
  next_from-some nullable t e =
      ap
        (λ o. elim o [
          | some t ↦ (record { type = some t; nullable = nullable }, rest)
          | none ↦ next_from (if c == 63 then true else nullable) rest
        ])
        e

  count-none : arg_type c ≡ none → arg_count_for_signature (c ∷ rest) ≡ arg_count_for_signature rest
  unfolding arg_count_for_signature
  count-none e =
      ap
        (λ o. elim o [
          | some t ↦ suc (arg_count_for_signature rest)
          | none ↦ arg_count_for_signature rest
        ])
        e

  count-some :
      (t : ArgType)
      → arg_type c ≡ some t
      → arg_count_for_signature (c ∷ rest) ≡ suc (arg_count_for_signature rest)
  unfolding arg_count_for_signature
  count-some t e =
      ap
        (λ o. elim o [
          | some t ↦ suc (arg_count_for_signature rest)
          | none ↦ arg_count_for_signature rest
        ])
        e

  -- A digit of the version is passed over.
  module _ (h : (leb 48 c && leb c 57) ≡ true) where
    digit_le : c ≤ 57
    digit_le = ground arith

    next_from-digit : (nullable : Bool) → next_from nullable (c ∷ rest) ≡ next_from nullable rest
    next_from-digit nullable =
        next_from-none nullable (arg_type-none c (omega (arith, digit_le)))
        ∙ ap (λ (b : Bool). next_from (if b then true else nullable) rest)
            (==_ne c 63 (omega (arith, digit_le)))

    arrays-digit : message_count_arrays (c ∷ rest) ≡ message_count_arrays rest
    unfolding message_count_arrays
    arrays-digit = rw (==_ne c 97 (omega (arith, digit_le))) refl

next-print :
    (a : Argument) (args : List Argument)
    → get_next_argument (print (a ∷ args)) ≡ (details a, print args)
unfolding get_next_argument print
next-print (t, true) args =
    next_from-none 63 _ false (arg_type-none 63 (omega arith))
    ∙ next_from-some (letter t) _ true t (arg_type-letter t)
next-print (t, false) args = next_from-some (letter t) _ false t (arg_type-letter t)

arguments-print :
    (args : List Argument) → arguments (length args) (print args) ≡ (map details args, [])
unfolding arguments
arguments-print [] = ap (λ (rest : List ℕ). ([], rest)) print_nil
arguments-print (a ∷ args) =
    ap
      (λ (step : ArgumentDetails × List ℕ).
        let more = arguments (length args) step.1 in (step.0 ∷ more.0, more.1))
      (next-print a args)
    ∙ ap (λ (more : List ArgumentDetails × List ℕ). (details a ∷ more.0, more.1))
        (arguments-print args)

count-print : (args : List Argument) → arg_count_for_signature (print args) ≡ length args
unfolding print arg_count_for_signature
count-print [] = refl
count-print ((t, true) ∷ args) =
    count-none 63 (letter t ∷ print args) (arg_type-none 63 (omega arith))
    ∙ count-some (letter t) (print args) t (arg_type-letter t)
    ∙ ap suc (count-print args)
count-print ((t, false) ∷ args) =
    count-some (letter t) (print args) t (arg_type-letter t) ∙ ap suc (count-print args)

arrays-print : (args : List Argument) → message_count_arrays (print args) ≡ arrays_in args
unfolding print message_count_arrays arrays_in
arrays-print [] = refl
arrays-print ((t, true) ∷ args) = rw (is_array-letter t, arrays-print args) refl
arrays-print ((t, false) ∷ args) = rw (is_array-letter t, arrays-print args) refl

module _ (sig : List ℕ) where
  next_from-version :
      (version : List ℕ) (nullable : Bool)
      → is_version version ≡ true
      → next_from nullable (version ++ sig) ≡ next_from nullable sig
  unfolding is_version
  next_from-version [] nullable h = refl
  next_from-version (c ∷ version) nullable h =
      let one : (leb 48 c && leb c 57) ≡ true = ground arith in
      let others : is_version version ≡ true = ground arith in
      next_from-digit c (version ++ sig) one nullable ∙ next_from-version version nullable others

  count-version :
      (version : List ℕ)
      → is_version version ≡ true
      → arg_count_for_signature (version ++ sig) ≡ arg_count_for_signature sig
  unfolding is_version
  count-version [] h = refl
  count-version (c ∷ version) h =
      let one : (leb 48 c && leb c 57) ≡ true = ground arith in
      let others : is_version version ≡ true = ground arith in
      count-none c (version ++ sig)
        (arg_type-none c (omega (arith, digit_le c (version ++ sig) one)))
      ∙ count-version version others

  arrays-version :
      (version : List ℕ)
      → is_version version ≡ true
      → message_count_arrays (version ++ sig) ≡ message_count_arrays sig
  unfolding is_version
  arrays-version [] h = refl
  arrays-version (c ∷ version) h =
      let one : (leb 48 c && leb c 57) ≡ true = ground arith in
      let others : is_version version ≡ true = ground arith in
      arrays-digit c (version ++ sig) one ∙ arrays-version version others

-- What is read from a signature: the arguments, and that none is left after them.
abbrev pub read : ℕ → List ℕ → List ArgumentDetails × ArgumentDetails
read count signature =
    let (args, rest) = arguments count signature in (args, (get_next_argument rest).0)

abbrev pub no_argument : ArgumentDetails
no_argument = record { type = none; nullable = false }

read-version :
    (version : List ℕ) (args : List Argument)
    → is_version version ≡ true
    → read (length args) (version ++ print args) ≡ (map details args, no_argument)
unfolding arguments get_next_argument print next_from
read-version version [] h = ap (λ next. ([], next.0)) (next_from-version [] version false h)
read-version version (a ∷ args) h =
    ap
      (λ (step : ArgumentDetails × List ℕ).
        let more = arguments (length args) step.1 in
        (step.0 ∷ more.0, (get_next_argument more.1).0))
      (next_from-version (print (a ∷ args)) version false h)
    ∙ ap (λ (more : List ArgumentDetails × List ℕ). (more.0, (get_next_argument more.1).0))
        (arguments-print (a ∷ args))

-- Where a list of arguments is written out as a signature, with any version in front, then
-- arg_count_for_signature gives their number and wl_message_count_arrays the number of arrays among
-- them, and get_next_argument, as often as that number, gives their types and which of them may be
-- null, in order, and says after them that no argument is left.
pub print_lem :
    (version : List ℕ) (args : List Argument)
    → is_version version ≡ true
    → (arg_count_for_signature (version ++ print args) ≡ length args)
      × (message_count_arrays (version ++ print args) ≡ arrays_in args)
      × (read (arg_count_for_signature (version ++ print args)) (version ++ print args)
          ≡ (map details args, no_argument))
print_lem version args h =
    let sig = print args in
    let count = count-version sig version h ∙ count-print args in
    (
      count,
      arrays-version sig version h ∙ arrays-print args,
      ap (λ n. read n (version ++ sig)) count ∙ read-version version args h,
    )

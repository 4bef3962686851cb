-- ===== src/Wayland/Signature.antt =====
-- The signatures of messages: get_next_argument and the counts of
-- packages/wayland/build/src/connection.c. A signature is the list of its characters, without the
-- NUL at its end.

pub mod Print
use k1os.Prelude.{
  ℕ, zero, suc, ◌+◌, Bool, true, false, Option, none, some, List, [], ◌∷◌, ◌==◌, if◌then◌else◌,
}

pub data ArgType : Type 0 where
  int uint fixed string object new_id array fd : ArgType

-- The character of a type, in the enum.
abbrev pub letter : ArgType → ℕ
letter int = 105
letter uint = 117
letter fixed = 102
letter string = 115
letter object = 111
letter new_id = 110
letter array = 97
letter fd = 104

-- The type of a character, where it has one: the cases of the switch statements.
unfoldable pub arg_type : ℕ → Option ArgType
arg_type c =
    if c == 105
    then some int
    else if c == 117
    then some uint
    else if c == 102
    then some fixed
    else if c == 115
    then some string
    else if c == 111
    then some object
    else if c == 110
    then some new_id
    else if c == 97
    then some array
    else if c == 104
    then some fd
    else none

-- `type` is `none` for the NUL that says that no argument is left.
pub record ArgumentDetails : Type 0 where
  pub type : Option ArgType
  pub nullable : Bool

-- The loop of get_next_argument: the details, and the rest of the signature.
unfoldable pub next_from : Bool → List ℕ → ArgumentDetails × List ℕ
next_from nullable [] = (record { type = none; nullable = nullable }, [])
next_from nullable (c ∷ rest) = elim (arg_type c) [
  | some t ↦ (record { type = some t; nullable = nullable }, rest)
  | none ↦ next_from (if c == 63 then true else nullable) rest
]

unfoldable pub get_next_argument : List ℕ → ArgumentDetails × List ℕ
get_next_argument signature = next_from false signature

unfoldable pub arg_count_for_signature : List ℕ → ℕ
arg_count_for_signature [] = 0
arg_count_for_signature (c ∷ rest) = elim (arg_type c) [
  | some t ↦ suc (arg_count_for_signature rest)
  | none ↦ arg_count_for_signature rest
]

unfoldable pub message_count_arrays : List ℕ → ℕ
message_count_arrays [] = 0
message_count_arrays (c ∷ rest) =
    let arrays = message_count_arrays rest in if c == 97 then suc arrays else arrays

-- The loops over the arguments of a signature, as in wl_argument_from_va_list: the details of the
-- first `count` arguments, and the rest of the signature.
unfoldable pub arguments : ℕ → List ℕ → List ArgumentDetails × List ℕ
arguments zero signature = ([], signature)
arguments (suc count) signature =
    let (arg, sig_iter) = get_next_argument signature in
    let (args, rest) = arguments count sig_iter in (arg ∷ args, rest)

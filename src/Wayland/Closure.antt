-- ===== src/Wayland/Closure.antt =====
-- struct wl_closure of packages/wayland/build/src/connection.c: a message with its arguments.

pub mod Marshal
pub mod Serialize
pub mod Demarshal
pub mod Transfer
pub mod RoundTrip
pub mod OneArgument
pub mod Messages
pub mod Header
pub mod Delivery
pub mod Room
pub mod Lookup
pub mod Sending
mod Tests
use k1os.Prelude.{
  ℕ, zero, suc, ◌+◌, ◌-◌, ◌*◌, ◌%◌, ◌^◌, Bool, true, false, Option, none, some, List, [], ◌∷◌, ◌++◌,
  ltb, ◌==◌, if◌then◌else◌, length, not, ◌&&◌,
}
use k1os.Wayland.Word.{int_word, size_of_int}
use k1os.Wayland.IdMap.{Errno, einval, enomem}
use k1os.Wayland.Signature.{
  ArgType, int, uint, fixed, string, object, new_id, array, fd, ArgumentDetails, arguments,
  arg_count_for_signature, message_count_arrays,
}

-- union wl_argument, by the member in use: `i`, `u` or `f` as a word of 32 bits; `s`, the bytes
-- before the NUL; `o`, a pointer, 0 for NULL; `n`; `a`, the bytes of the array; `h`.
pub data Argument : Type 0 where
  number : ℕ → Argument
  text : Option (List ℕ) → Argument
  reference : ℕ → Argument
  name : ℕ → Argument
  bytes : Option (List ℕ) → Argument
  descriptor : ℕ → Argument

-- -1, as a word.
abbrev pub no_fd : ℕ
no_fd = 0xffff_ffff

-- struct wl_message: the signature, and for each argument the name of its interface, if any.
pub record Message : Type 0 where
  pub signature : List ℕ
  pub types : List (Option (List ℕ))

pub record Closure : Type 0 where
  pub message : Message
  pub count : ℕ
  pub opcode : ℕ
  pub sender_id : ℕ
  pub args : List Argument

-- struct wl_object, by its pointer.
pub record Object : Type 0 where
  pub id : ℕ
  pub interface : List ℕ

-- What the loops over the arguments of a message get from get_next_argument, in turn.
abbrev pub details_of : Message → List ArgumentDetails
details_of m = (arguments (arg_count_for_signature m.signature) m.signature).0

abbrev pub is_fd : Option ArgType → Bool
is_fd (some fd) = true
is_fd _ = false

-- wl_closure_clear_fds, on the arguments.
unfoldable pub clear_fds : List ArgumentDetails → List Argument → List Argument
clear_fds [] args = args
clear_fds (d ∷ ds) [] = []
clear_fds (d ∷ ds) (a ∷ args) = (if is_fd d.type then descriptor no_fd else a) ∷ clear_fds ds args

-- The descriptors that wl_closure_close_fds closes.
unfoldable pub close_fds : List ArgumentDetails → List Argument → List ℕ
close_fds [] args = []
close_fds (d ∷ ds) [] = []
close_fds (d ∷ ds) (a ∷ args) =
    let rest = close_fds ds args in
    let own : List ℕ = elim a [ descriptor h ↦ if h == no_fd then rest else h ∷ rest | _ ↦ rest ] in
    if is_fd d.type then own else rest

abbrev pub max_args : ℕ
max_args = 20

-- sizeof (struct wl_closure) and sizeof (struct wl_array)
abbrev pub closure_size : ℕ
closure_size = 208

abbrev pub wl_array_size : ℕ
wl_array_size = 24

pub data Initialised : Type 0 where
  made : Closure → Initialised
  refused : Errno → Initialised
  overrun : Initialised

-- The arguments of a closure that is filled later.
unfoldable pub zeroed : List ArgumentDetails → List Argument
zeroed [] = []
zeroed (d ∷ ds) = number 0 ∷ zeroed ds

-- `size` is 0 where the arguments are given. `int size_to_allocate`
-- becomes a size_t again; where the block is then shorter than what is kept in it, the code writes
-- past its end.
unfoldable pub closure_init : (ℕ → Bool) → Message → ℕ → Option (List Argument) → Initialised
closure_init can_alloc message size args =
    let count = arg_count_for_signature message.signature in
    let extra = size + message_count_arrays message.signature * wl_array_size in
    let wanted = if size == 0 then closure_size else closure_size + extra in
    let to_allocate = size_of_int (int_word wanted) in
    let given : List Argument = elim args [ some as' ↦ as' | none ↦ zeroed (details_of message) ] in
    if ltb max_args count
    then refused einval
    else if not (can_alloc to_allocate)
    then refused enomem
    else if ltb to_allocate wanted
    then overrun
    else made (record {
      message = message;
      count = count;
      opcode = 0;
      sender_id = 0;
      args = clear_fds (details_of message) given;
    })

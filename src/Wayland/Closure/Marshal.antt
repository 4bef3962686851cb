-- ===== src/Wayland/Closure/Marshal.antt =====
-- wl_closure_marshal of packages/wayland/build/src/connection.c: the check of the arguments, and the
-- duplicates of their descriptors.
use k1os.Prelude.{
  ℕ, ◌+◌, Bool, true, false, Option, none, some, List, [], ◌∷◌, ◌==◌, if◌then◌else◌, ◌>>=◌,
}
use k1os.Wayland.IdMap.{Errno, einval, other}
use k1os.Wayland.Signature.{
  ArgType, int, uint, fixed, string, object, new_id, array, fd, ArgumentDetails,
}
use k1os.Wayland.Closure.{
  Argument, number, text, reference, name, bytes, descriptor, Message, Closure, Object, details_of,
  clear_fds, close_fds, made, refused, closure_init, overrun,
}

-- One argument: what the closure holds, or the error.
pub data Marshalled : Type 0 where
  kept : Argument → Marshalled
  failed : Errno → Marshalled

-- The arguments of the closure, and the error that stopped the loop, if any.
pub record Checked : Type 0 where
  pub args : List Argument
  pub error : Option Errno

-- The closure, or the error with the descriptors that wl_closure_destroy closes.
pub data Result : Type 0 where
  closure : Closure → Result
  null : Errno → List ℕ → Result

-- `memory` is the object behind a pointer. `dup` is what wl_os_dupfd_cloexec gives for the i-th
-- argument: a descriptor, or `none` for a failure. A result of `none` is a read of a member of the
-- union that is not in use, or wl_abort.
module _ (memory : ℕ → Object) (dup : ℕ → ℕ → Option ℕ) where
  unfoldable pub marshal_arg : ℕ → ArgType → Bool → Argument → Option Marshalled
  marshal_arg i int nullable (number w) = some (kept (number w))
  marshal_arg i uint nullable (number w) = some (kept (number w))
  marshal_arg i fixed nullable (number w) = some (kept (number w))
  marshal_arg i string nullable (text (some s)) = some (kept (text (some s)))
  marshal_arg i string true (text none) = some (kept (text none))
  marshal_arg i string false (text none) = some (failed einval)
  marshal_arg i object nullable (reference p) = some (
      if nullable then kept (reference p) else if p == 0 then failed einval else kept (reference p))
  marshal_arg i new_id nullable (reference p) =
      some (if p == 0 then failed einval else kept (name ((memory p).id)))
  marshal_arg i array nullable (bytes (some b)) = some (kept (bytes (some b)))
  marshal_arg i array nullable (bytes none) = some (failed einval)
  marshal_arg i fd nullable (descriptor h) =
      some (elim (dup i h) [ some h' ↦ kept (descriptor h') | none ↦ failed other ])
  marshal_arg i t nullable a = none

  unfoldable pub marshal_args : ℕ → List ArgumentDetails → List Argument → Option Checked
  marshal_args i [] args = some (record { args = []; error = none })
  marshal_args i (d ∷ ds) [] = none
  marshal_args i (d ∷ ds) (a ∷ args) =
      let later = marshal_args (i + 1) ds args in
      let one : Option Marshalled = elim d.type [
        | some t ↦ marshal_arg i t d.nullable a
        | none ↦ none
      ] in
      one >>= λ m. elim m [
        | kept a' ↦ later >>= λ p. some (record p { args = a' ∷ p.args })
        | failed e ↦ some (record { args = clear_fds (d ∷ ds) (a ∷ args); error = some e })
      ]

  unfoldable pub closure_marshal : (ℕ → Bool) → Object → ℕ → List Argument → Message → Option Result
  closure_marshal can_alloc sender opcode args message =
      elim (closure_init can_alloc message 0 (some args)) [
        | refused e ↦ some (null e [])
        | overrun ↦ none
        | made c ↦ marshal_args 0 (details_of message) args >>= λ p. elim p.error [
          | none ↦
              some (closure (record c { args = p.args; sender_id = sender.id; opcode = opcode }))
          | some e ↦ some (null e (close_fds (details_of message) p.args))
        ]
      ]

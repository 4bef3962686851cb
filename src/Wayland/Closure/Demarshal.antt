-- ===== src/Wayland/Closure/Demarshal.antt =====
-- wl_connection_demarshal of packages/wayland/build/src/connection.c: a message from the queue of a
-- connection as a closure.
use k1os.Prelude.{
  ℕ, ◌-◌, ◌*◌, ◌/◌, ◌%◌, ◌^◌, Bool, true, false, not, ◌&&◌, Option, none, some, List, [], ◌∷◌, ltb,
  ◌==◌, if◌then◌else◌, length, take, drop, get_or, ◌>>=◌,
}
use k1os.Wayland.Word.{word_at, div_roundup}
use k1os.Wayland.Ring.{Ring, ring_copy, ring_consume}
use k1os.Wayland.IdMap.{IdMap, Errno, einval, ok, failed, map_reserve_new}
use k1os.Wayland.Signature.{
  ArgType, int, uint, fixed, string, object, new_id, array, fd, ArgumentDetails,
}
use k1os.Wayland.Closure.{
  Argument, number, text, name, bytes, descriptor, Message, Closure, details_of, close_fds, made,
  refused, closure_init, overrun,
}

-- What the loop works on: the bytes from `p` to `end`, the queue of descriptors and the map.
pub record Reader : Type 0 where
  pub rest : List ℕ
  pub fds_in : Ring
  pub objects : IdMap

pub data Step : Type 0 where
  read : Argument → Reader → Step
  stop : Errno → Reader → Step

-- The string at a pointer.
unfoldable pub c_string : List ℕ → List ℕ
c_string [] = []
c_string (c ∷ rest) = let s = c ∷ c_string rest in if c == 0 then [] else s

-- `id = *p++`
abbrev pub skip_word : Reader → Reader
skip_word r = record r { rest = drop 4 r.rest }

-- `(uint32_t) (end - p) < length_in_u32`
abbrev pub too_short : List ℕ → ℕ → Bool
too_short rest words = ltb (length rest / 4 % 2 ^ 32) words

unfoldable pub read_string : Bool → Reader → Step
read_string nullable r0 =
    let len = word_at r0.rest in
    let r = skip_word r0 in
    let words = div_roundup len in
    if len == 0
    then (if nullable then read (text none) r else stop einval r)
    else if too_short r.rest words
    then stop einval r
    else if not (get_or r.rest (len - 1) 1 == 0)
    then stop einval r
    else read (text (some (c_string r.rest))) (record r { rest = drop (4 * words) r.rest })

unfoldable pub read_array : Reader → Step
read_array r0 =
    let len = word_at r0.rest in
    let r = skip_word r0 in
    let words = div_roundup len in
    if too_short r.rest words
    then stop einval r
    else read (bytes (some (take len r.rest))) (record r { rest = drop (4 * words) r.rest })

unfoldable pub read_object : Bool → Reader → Step
read_object nullable r =
    let id = word_at r.rest in
    if (id == 0) && not nullable then stop einval (skip_word r) else read (name id) (skip_word r)

unfoldable pub read_fd : Reader → Step
read_fd r =
    if r.fds_in.tail == r.fds_in.head
    then stop einval r
    else read (descriptor (word_at (ring_copy r.fds_in 4)))
        (record r { fds_in = ring_consume r.fds_in 4 })

abbrev pub takes_word : ArgType → Bool
takes_word fd = false
takes_word t = true

-- The arguments that are read, the error that stops the loop, if any, and what is left.
pub record Progress : Type 0 where
  pub args : List Argument
  pub error : Option Errno
  pub reader : Reader

-- The closure, or the error with the descriptors that wl_closure_destroy closes; the queues of
-- bytes and descriptors, and the map.
pub record Demarshalled : Type 0 where
  pub result : Option Closure
  pub error : Option Errno
  pub closed : List ℕ
  pub input : Ring
  pub fds_in : Ring
  pub objects : IdMap

abbrev pub give_up : Ring → Ring → ℕ → IdMap → Errno → Demarshalled
give_up input fds_in size objects e = record {
  result = none;
  error = some e;
  closed = [];
  input = ring_consume input size;
  fds_in = fds_in;
  objects = objects;
}

-- `none` is an access of wl_map_reserve_new outside its array, one past the end of the closure, or
-- wl_abort.
module _ (can_alloc : ℕ → Bool) (fresh : ℕ) where
  unfoldable pub read_new_id : Reader → Option Step
  read_new_id r =
      let id = word_at r.rest in
      let reserve : Option Step = (do
        (status, objects) ← map_reserve_new can_alloc fresh id r.objects
        let r' = record (skip_word r) { objects = objects }
        some (elim status [ ok ↦ read (name id) r' | failed e ↦ stop e r' ])) in
      if id == 0 then some (stop einval (skip_word r)) else reserve

  -- The switch.
  unfoldable pub read_type : ArgType → Bool → Reader → Option Step
  read_type int nullable r = some (read (number (word_at r.rest)) (skip_word r))
  read_type uint nullable r = some (read (number (word_at r.rest)) (skip_word r))
  read_type fixed nullable r = some (read (number (word_at r.rest)) (skip_word r))
  read_type string nullable r = some (read_string nullable r)
  read_type object nullable r = some (read_object nullable r)
  read_type new_id nullable r = read_new_id r
  read_type array nullable r = some (read_array r)
  read_type fd nullable r = some (read_fd r)

  unfoldable pub read_argument : ArgumentDetails → Reader → Option Step
  read_argument d r = elim d.type [
    | none ↦ none
    | some t ↦
        let step = read_type t d.nullable r in
        if takes_word t && ltb (length r.rest) 4 then some (stop einval r) else step
  ]

  unfoldable pub read_arguments : List ArgumentDetails → Reader → Option Progress
  read_arguments [] r = some (record { args = []; error = none; reader = r })
  read_arguments (d ∷ ds) r = read_argument d r >>= λ s. elim s [
    | stop e r' ↦ some (record { args = []; error = some e; reader = r' })
    | read a r' ↦ read_arguments ds r' >>= λ p. some (record p { args = a ∷ p.args })
  ]

  unfoldable pub demarshal : Ring → Ring → ℕ → IdMap → Message → Option Demarshalled
  demarshal input fds_in size objects message =
      let p = ring_copy input size in
      let start : Reader = record {
        rest = drop 8 (take (4 * (size / 4)) p);
        fds_in = fds_in;
        objects = objects;
      } in
      let finish = λ (c : Closure) (q : Progress). some (record {
        result = elim q.error [
          | none ↦ some (record c {
            sender_id = word_at p;
            opcode = word_at (drop 4 p) % 2 ^ 16;
            args = q.args;
          })
          | some e ↦ none
        ];
        error = q.error;
        closed = elim q.error [ none ↦ [] | some e ↦ close_fds (details_of message) q.args ];
        input = ring_consume input size;
        fds_in = q.reader.fds_in;
        objects = q.reader.objects;
      }) in
      let loop : Option Demarshalled = elim (closure_init can_alloc message size none) [
        | refused e ↦ some (give_up input fds_in size objects e)
        | overrun ↦ none
        | made c ↦ read_arguments (details_of message) start >>= finish c
      ] in
      if ltb size 8 then some (give_up input fds_in size objects einval) else loop

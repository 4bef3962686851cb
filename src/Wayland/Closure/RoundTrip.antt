-- ===== src/Wayland/Closure/RoundTrip.antt =====
-- A message from serialize_closure to wl_connection_demarshal.
use k1os.Prelude.{
  ℕ, ◌+◌, ◌^◌, ◌≤◌, ◌<◌, ◌≡◌, ◌≢◌, refl, ap, ap₂, ◌∙◌, Bool, true, false, not, ◌&&◌, Option, none,
  some, List, [], ◌++◌, arith, ltb, ◌==◌, if◌then◌else◌, length, take, drop, length-append,
  take-append, le→ltb, ==_ne, inl, inr, ◌⊎◌,
}
use k1os.Wayland.Word.{
  word_bytes, word_at, word_at-word_bytes, word_at-word_bytes_nil, length-word_bytes,
  drop-word_bytes,
}
use k1os.Wayland.Ring.{Ring, ring_copy, ring_consume, ring_size}
use k1os.Wayland.Ring.Contents.{IsRing, contents, length-contents, ring_copy_lem, ring_consume_lem}
use k1os.Wayland.IdMap.{IdMap, ok, map_reserve_new}
use k1os.Wayland.Signature.{
  ArgType, int, uint, fixed, string, object, new_id, array, fd, ArgumentDetails,
}
use k1os.Wayland.Closure.{Argument, number, text, reference, name, bytes, descriptor, Object}
use k1os.Wayland.Closure.Demarshal.{
  Reader, Step, read, read_object, read_new_id, read_type, read_argument, takes_word, skip_word,
}
use k1os.Wayland.Closure.Transfer.{no_nul}

abbrev pub IsWord : ℕ → Type 0
IsWord w = w < 2 ^ 32

module _ (memory : ℕ → Object) where
  -- The id that stands for a pointer in a message.
  abbrev pub id_at : ℕ → ℕ
  id_at p = if p == 0 then 0 else (memory p).id

  -- The arguments that a message can carry.
  abbrev pub Fits : ArgType → Bool → Argument → Type 0
  Fits int nullable (number w) = IsWord w
  Fits uint nullable (number w) = IsWord w
  Fits fixed nullable (number w) = IsWord w
  Fits string nullable (text none) = nullable ≡ true
  Fits string nullable (text (some s)) = IsWord (length s + 1) × (no_nul s ≡ true)
  Fits object nullable (reference p) = IsWord (id_at p) × ((nullable ≡ true) ⊎ (id_at p ≢ 0))
  Fits new_id nullable (name n) = IsWord n × (n ≢ 0)
  Fits array nullable (bytes none) = Unit
  Fits array nullable (bytes (some b)) = IsWord (length b)
  Fits fd nullable (descriptor h) = IsWord h
  Fits t nullable a = ⊥

  -- What the receiver has for an argument of the sender.
  unfoldable pub received : Argument → Argument
  received (reference p) = name (id_at p)
  received (bytes none) = bytes (some [])
  received a = a

-- The bytes of an argument in the queue of descriptors.
abbrev pub fd_bytes : ArgType → Argument → List ℕ
fd_bytes fd (descriptor h) = word_bytes h
fd_bytes t a = []

abbrev pub reader : List ℕ → Ring → IdMap → Reader
reader rest fds_in objects = record { rest = rest; fds_in = fds_in; objects = objects }

abbrev pub detail : ArgType → Bool → ArgumentDetails
detail t nullable = record { type = some t; nullable = nullable }

abbrev pub fds_after : ArgType → Ring → Ring
fds_after fd f = ring_consume f 4
fds_after t f = f

pub length-word : (w : ℕ) (rest : List ℕ) → length (word_bytes w ++ rest) ≡ 4 + length rest
length-word w rest = omega (arith, length-append (word_bytes w) rest, length-word_bytes w)

pub has_word : (w : ℕ) (rest : List ℕ) → ltb (length (word_bytes w ++ rest)) 4 ≡ false
has_word w rest = le→ltb _ 4 (omega (arith, length-word w rest))

-- The queue of descriptors, where it holds one more.
module _ (h : ℕ) (more : List ℕ) (f : Ring) (v : IsRing f) (w : IsWord h)
    (held : contents f ≡ word_bytes h ++ more) where
  pub holds_four : 4 ≤ ring_size f
  holds_four = omega (arith, ap length held, length-contents f, length-word h more)

  pub not_empty : (f.tail == f.head) ≡ false
  unfolding ring_size
  not_empty = ==_ne f.tail f.head (λ e. absurd (omega (arith, e, holds_four, v.head_lt, v.tail_lt)))

  pub next_fd : word_at (ring_copy f 4) ≡ h
  next_fd =
      ap word_at (ring_copy_lem f 4 v holds_four ∙ ap (take 4) held)
      ∙ ap word_at (take-append 4 (word_bytes h) more (length-word_bytes h))
      ∙ word_at-word_bytes_nil h w

  pub fds_left : contents (ring_consume f 4) ≡ more
  fds_left = (ring_consume_lem f 4 v holds_four).0 ∙ ap (drop 4) held ∙ drop-word_bytes h more

object_accepted :
    (w : ℕ) (nullable : Bool) → (nullable ≡ true) ⊎ (w ≢ 0) → ((w == 0) && not nullable) ≡ false
object_accepted w true valid = ground arith
object_accepted w false (inl e) = cc
object_accepted w false (inr ne) = rw (==_ne w 0 ne) refl

module _ (can_alloc : ℕ → Bool) (fresh : ℕ) where
  -- The id of a new object can be reserved.
  abbrev pub Reserves : ArgType → Argument → IdMap → IdMap → Type 0
  Reserves new_id (name n) m m' = map_reserve_new can_alloc fresh n m ≡ some (ok, m')
  Reserves t a m m' = m' ≡ m

  module _ (w : ℕ) (rest : List ℕ) (f : Ring) (m : IdMap) (h : IsWord w) where
    abbrev pub here : Reader
    here = reader (word_bytes w ++ rest) f m

    pub value : word_at here.rest ≡ w
    value = word_at-word_bytes w rest h

    pub behind : skip_word here ≡ reader rest f m
    behind = ap (λ (left : List ℕ). reader left f m) (drop-word_bytes w rest)

    -- A type that takes a word, where one is there.
    pub read_word :
        (t : ArgType) (nullable : Bool) (s : Option Step)
        → takes_word t ≡ true
        → read_type can_alloc fresh t nullable here ≡ s
        → read_argument can_alloc fresh (detail t nullable) here ≡ s
    unfolding read_argument
    read_word t nullable s e k = rw (e, has_word w rest) k

    pub numeral_read :
        some (read (number (word_at here.rest)) (skip_word here))
        ≡ some (read (number w) (reader rest f m))
    numeral_read = ap₂ (λ n r. some (read (number n) r)) value behind

    pub read_object-word :
        (nullable : Bool)
        → (nullable ≡ true) ⊎ (w ≢ 0)
        → read_object nullable here ≡ read (name w) (reader rest f m)
    unfolding read_object
    read_object-word nullable valid =
        let accepted : ((w == 0) && not nullable) ≡ false = object_accepted w nullable valid in
        rw (value, accepted) (ap (read (name w)) behind)

    pub read_new_id-word :
        (m' : IdMap)
        → w ≢ 0
        → map_reserve_new can_alloc fresh w m ≡ some (ok, m')
        → read_new_id can_alloc fresh here ≡ some (read (name w) (reader rest f m'))
    unfolding read_new_id
    read_new_id-word m' ne e =
        rw (value, ==_ne w 0 ne, e)
          (ap₂ (λ n left. some (read (name n) (reader left f m'))) value (drop-word_bytes w rest))

-- ===== src/Wayland/Ring.antt =====
-- struct wl_ring_buffer of packages/wayland/build/src/connection.c: a byte queue that grows.

pub mod Contents
pub mod Space
use k1os.Prelude.{
  ℕ, zero, suc, ◌+◌, ◌-◌, ◌*◌, ◌%◌, ◌^◌, Bool, true, false, ◌&&◌, List, [], ◌∷◌, ◌++◌, ltb, leb,
  ◌==◌, if◌then◌else◌, length, take, drop, replicate,
}
use k1os.Wayland.Array.{size_mod}
use k1os.Wayland.Block.{blit, blit_round, slice}

-- `buf` is the block that `data` points to. `head` and `tail` count bytes since the start, modulo
-- 2 ^ 64; a `max_size_bits` of 0 is no limit.
pub record Ring : Type 0 where
  pub buf : List ℕ
  pub head : ℕ
  pub tail : ℕ
  pub size_bits : ℕ
  pub max_size_bits : ℕ

abbrev pub default_size_pot : ℕ
default_size_pot = 12

abbrev pub size_pot : ℕ → ℕ
size_pot size_bits = 2 ^ size_bits

abbrev pub capacity : Ring → ℕ
capacity b = size_pot b.size_bits

-- `i & (capacity - 1)`: the capacity is a power of two.
abbrev pub mask : Ring → ℕ → ℕ
mask b i = i % capacity b

unfoldable pub ring_size : Ring → ℕ
ring_size b = (b.head + size_mod - b.tail) % size_mod

unfoldable pub ring_put : Ring → List ℕ → Ring
ring_put b src =
    let count = length src in
    let head = mask b b.head in
    let buf = blit_round b.buf (capacity b) head src in
    if count == 0 then b else record b { buf = buf; head = (b.head + count) % size_mod }

unfoldable pub ring_copy : Ring → ℕ → List ℕ
ring_copy b count =
    let tail = mask b b.tail in
    let size = capacity b - tail in
    if count == 0
    then []
    else if leb (tail + count) (capacity b)
    then slice b.buf tail count
    else slice b.buf tail size ++ slice b.buf 0 (count - size)

-- `tail += count`
unfoldable pub ring_consume : Ring → ℕ → Ring
ring_consume b count = record b { tail = (b.tail + count) % size_mod }

-- The parts of the block that a vectored write sends: `iov[0]`, and `iov[1]` after it.
unfoldable pub ring_get_iov : Ring → List (List ℕ)
ring_get_iov b =
    let head = mask b b.head in
    let tail = mask b b.tail in
    if ltb tail head
    then slice b.buf tail (head - tail) ∷ []
    else if head == 0
    then slice b.buf tail (capacity b - tail) ∷ []
    else slice b.buf tail (capacity b - tail) ∷ slice b.buf 0 head ∷ []

-- The parts of the block that a vectored read fills: where each starts, and its length.
unfoldable pub ring_put_iov : Ring → List (ℕ × ℕ)
ring_put_iov b =
    let head = mask b b.head in
    let tail = mask b b.tail in
    if ltb head tail
    then (head, tail - head) ∷ []
    else if tail == 0
    then (head, capacity b - head) ∷ []
    else (head, capacity b - head) ∷ (0, tail) ∷ []

-- The loop of get_max_size_bits_for_size, with the rounds that are left before 64 bits.
unfoldable pub max_size_bits_from : ℕ → ℕ → ℕ → ℕ
max_size_bits_from zero bits buffer_size = bits
max_size_bits_from (suc rounds) bits buffer_size =
    let next = max_size_bits_from rounds (bits + 1) buffer_size in
    if ltb (size_pot bits) buffer_size then next else bits

unfoldable pub get_max_size_bits_for_size : ℕ → ℕ
get_max_size_bits_for_size buffer_size =
    if buffer_size == 0 then 0 else max_size_bits_from 52 default_size_pot buffer_size

unfoldable pub get_bits_for_size : Ring → ℕ → ℕ
get_bits_for_size b net_size =
    let wanted = get_max_size_bits_for_size net_size in
    let bits = if ltb wanted default_size_pot then default_size_pot else wanted in
    if ltb 0 b.max_size_bits && ltb b.max_size_bits bits then b.max_size_bits else bits

unfoldable pub ring_is_max_size_reached : Ring → Bool
ring_is_max_size_reached b =
    let net_size = (ring_size b + 1) % size_mod in
    leb (size_pot (get_bits_for_size b net_size)) net_size

-- How a request for space ends: with the ring to use, or with the error.
pub data Ensured : Type 0 where
  ready : Ring → Ensured
  too_big no_memory : Ensured

unfoldable pub ring_allocate : (ℕ → Bool) → Ring → ℕ → Ensured
ring_allocate can_alloc b size_bits =
    let zeroed = replicate (size_pot size_bits) 0 in
    let moved = record b {
      buf = blit zeroed 0 (ring_copy b (ring_size b));
      size_bits = size_bits;
      head = ring_size b;
      tail = 0;
    } in
    if can_alloc (size_pot size_bits) then ready moved else no_memory

unfoldable pub ring_ensure_space : (ℕ → Bool) → Ring → ℕ → Ensured
ring_ensure_space can_alloc b count =
    let net_size = (ring_size b + count) % size_mod in
    let size_bits = get_bits_for_size b net_size in
    if ltb (size_pot size_bits) net_size
    then too_big
    else if size_bits == b.size_bits
    then ready b
    else ring_allocate can_alloc b size_bits

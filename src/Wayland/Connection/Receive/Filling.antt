-- ===== src/Wayland/Connection/Receive/Filling.antt =====
-- A round of wl_connection_read of packages/wayland/build/src/connection.c: the space for it, and the bytes
-- in the block.
use k1os.Prelude.{
  ℕ, ◌+◌, ◌%◌, ◌≤◌, ◌<◌, ◌≡◌, sym, subst, ap, ◌∙◌, Bool, true, false, List, ◌++◌, arith,
  if◌then◌else◌, length, length-append, take, take-append, ==_ne,
}
use k1os.Wayland.Array.{size_mod}
use k1os.Wayland.Cyclic.{take-window}
use k1os.Wayland.IdMap.{enomem, e2big}
use k1os.Wayland.Ring.{
  Ring, Ensured, ready, too_big, no_memory, ring_size, capacity, ring_put, ring_put_iov,
  ring_ensure_space, ring_is_max_size_reached,
}
use k1os.Wayland.Ring.Contents.{IsRing, contents, length-contents, ring_put_lem}
use k1os.Wayland.Ring.Space.{Answered, given, over_limit, out_of_memory, ring_ensure_space_lem}
use k1os.Wayland.Connection.{Connection}
use k1os.Wayland.Connection.Send.Queue.{Allows}
use k1os.Wayland.Connection.Receive.{
  data_size, Prepared, reads, ends, prepare, Outcome, got, error, scatter,
}
use k1os.Wayland.Connection.Receive.Scatter.{room, scatter-put_iov}

-- Bytes in the block, with and without a move of the head.
module _ (b : Ring) (bytes : List ℕ) (v : IsRing b) (space : ring_size b < capacity b)
    (one : 1 ≤ length bytes) (most : length bytes ≤ room (ring_put_iov b)) where
  abbrev pub in_block : Ring
  in_block = record b { buf = scatter b.buf (ring_put_iov b) bytes }

  abbrev pub behind : Ring
  behind = record b {
    buf = scatter b.buf (ring_put_iov b) bytes;
    head = (b.head + length bytes) % size_mod;
  }

  behind_lem : behind ≡ ring_put b bytes
  unfolding ring_put
  behind_lem =
      let s = scatter-put_iov b v space bytes most in
      rw (==_ne (length bytes) 0 (omega arith)) (
        ap (λ (buf : List ℕ). record b { buf = buf; head = (b.head + length bytes) % size_mod })
          s.0)

  pub behind-IsRing : (contents behind ≡ contents b ++ bytes) × IsRing behind
  behind-IsRing =
      let s = scatter-put_iov b v space bytes most in
      subst (λ r. (contents r ≡ contents b ++ bytes) × IsRing r) (sym behind_lem)
        (ring_put_lem b bytes v s.1)

  size_behind : ring_size b ≤ ring_size behind
  size_behind = omega (
    arith,
    ap length behind-IsRing.0,
    length-append (contents b) bytes,
    length-contents b,
    length-contents behind,
  )

  pub in_block-IsRing : (contents in_block ≡ contents b) × IsRing in_block
  unfolding ring_size
  in_block-IsRing =
      let w = behind-IsRing in
      let s = scatter-put_iov b v space bytes most in
      (
        sym (
              take-window in_block.buf (capacity b) b.tail (ring_size behind) (ring_size b)
                size_behind)
            ∙ ap (take (ring_size b)) w.0
            ∙ take-append (ring_size b) (contents b) bytes (length-contents b),
        record {
          sized = w.1.sized;
          small = v.small;
          head_lt = v.head_lt;
          tail_lt = v.tail_lt;
          fits = v.fits;
        },
      )

-- A connection that is ready for a call of recvmsg.
pub record IsReader (c : Connection) : Type 0 where
  pub input_valid : IsRing c.input
  pub space : ring_size c.input < capacity c.input
  pub limit : c.input.max_size_bits ≤ 62
  pub fds_valid : IsRing c.fds_in

module _ (can_alloc : ℕ → Bool) where
  pub data PreparedWell (c : Connection) : Prepared → Type 0 where
    ready_to_read :
        {b : Ring}
        → IsRing b
        → contents b ≡ contents c.input
        → ring_size b < capacity b
        → b.max_size_bits ≡ c.input.max_size_bits
        → PreparedWell c (reads (record c { input = b }))
    over : {o : Outcome} → PreparedWell c (ends o)

  pub prepare-PreparedWell :
      (c : Connection) → IsRing c.input → Allows c.input 1 → PreparedWell c (prepare can_alloc c)
  unfolding prepare
  prepare-PreparedWell c v a = by_limit (ring_is_max_size_reached c.input)
    where
      prepared : Ensured → Prepared
      prepared e = elim e [
        | ready b ↦ reads (record c { input = b })
        | too_big ↦ ends (error e2big)
        | no_memory ↦ ends (error enomem)
      ]

      by_answer : (e : Ensured) → Answered can_alloc c.input 1 e → PreparedWell c (prepared e)
      by_answer (ready b) (given w same space limit) =
          ready_to_read w same (omega (arith, space)) limit
      by_answer too_big (over_limit l m) = over
      by_answer no_memory (out_of_memory m) = over

      by_limit :
          (reached : Bool)
          → PreparedWell c (
              if reached
              then ends (got (data_size c))
              else prepared (ring_ensure_space can_alloc c.input 1))
      by_limit true = over
      by_limit false =
          by_answer (ring_ensure_space can_alloc c.input 1)
            (ring_ensure_space_lem can_alloc c.input 1 v a.0 a.1)

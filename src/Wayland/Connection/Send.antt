-- ===== src/Wayland/Connection/Send.antt =====
-- wl_connection_flush, wl_connection_queue, wl_connection_write and wl_connection_put_fd of
-- packages/wayland/build/src/connection.c. The answers of sendmsg are a list, one for each call; the
-- functions return what was sent, and the answers that are left.
pub mod Closing
pub mod Flushing
pub mod Completion
pub mod Queue
pub mod Descriptors
use mathlib.Core.List.{flatten}
use k1os.Prelude.{
  ℕ, suc, ◌+◌, ◌-◌, ◌*◌, ◌%◌, Bool, true, false, not, ◌&&◌, List, [], ◌∷◌, ◌++◌, ltb, leb, ◌==◌,
  if◌then◌else◌, length, take,
}
use k1os.Wayland.Block.{slice}
use k1os.Wayland.Word.{word_bytes, int_word, is_negative}
use k1os.Wayland.IdMap.{Errno, e2big, enomem, eagain, eintr, other, Status, ok, failed}
use k1os.Wayland.Ring.{
  Ring, Ensured, ready, too_big, no_memory, ring_size, mask, ring_put, ring_copy, ring_consume,
  ring_get_iov, ring_ensure_space,
}
use k1os.Wayland.Connection.{
  Connection, max_fds_out, cmsg_len, clen_max, buffer_default_max_size, close_fds,
}

-- An answer of sendmsg: the number of bytes sent, or the error.
pub data Sent : Type 0 where
  sent : ℕ → Sent
  not_sent : Errno → Sent

-- The bytes of the descriptors in the control message.
unfoldable pub control_fds : Ring → List ℕ
control_fds b =
    let size = if ltb (max_fds_out * 4) (ring_size b) then max_fds_out * 4 else ring_size b in
    if ltb 0 size then ring_copy b size else []

-- `clen`, as build_cmsg sets it.
abbrev pub control_len : List ℕ → ℕ
control_len fds = if ltb 0 (length fds) then cmsg_len (length fds) else 0

-- What the vectored write offers: one byte alone, where the control message is full.
unfoldable pub offered : Connection → List ℕ
offered c =
    if leb clen_max (control_len (control_fds c.fds_out))
    then slice c.out.buf (mask c.out c.out.tail) 1
    else flatten (ring_get_iov c.out)

-- How a flush ends: with the return value, with the error, or in a call of sendmsg with no answer.
pub data Outcome : Type 0 where
  flushed : ℕ → Outcome
  error : Errno → Outcome
  blocked : Outcome

-- `wire` and `wire_fds` are the bytes and the descriptors that went through the socket.
pub record Flush : Type 0 where
  pub connection : Connection
  pub outcome : Outcome
  pub wire : List ℕ
  pub wire_fds : List ℕ
  pub closed : List ℕ
  pub answers : List Sent

-- The rest of the loop, after a call that sent `n` bytes.
abbrev pub after_send : Connection → ℕ → Connection
after_send c n = record c {
  fds_out = (close_fds c.fds_out max_fds_out).0;
  out = ring_consume c.out n;
}

abbrev pub stop : Connection → Outcome → List Sent → Flush
stop c o answers = record {
  connection = c;
  outcome = o;
  wire = [];
  wire_fds = [];
  closed = [];
  answers = answers;
}

-- What one call sent, and what the later ones did.
abbrev pub and_later : Connection → ℕ → Flush → Flush
and_later c n later = record later {
  wire = take n (offered c) ++ later.wire;
  wire_fds = control_fds c.fds_out ++ later.wire_fds;
  closed = (close_fds c.fds_out max_fds_out).1 ++ later.closed;
}

-- `want_flush = 0`, and the number of bytes since the `tail` of the start, as an int.
abbrev pub finish : ℕ → Connection → List Sent → Flush
finish tail c answers =
    stop (record c { want_flush = false })
      (flushed (int_word (ring_size (record c.out { tail = tail })))) answers

-- The loop; `tail` is that of the start. A call that is interrupted is made again.
unfoldable pub flush_from : ℕ → List Sent → Connection → Flush
flush_from tail [] c = if ring_size c.out == 0 then finish tail c [] else stop c blocked []
flush_from tail (sent n ∷ answers) c =
    let later = flush_from tail answers (after_send c n) in
    if ring_size c.out == 0 then finish tail c (sent n ∷ answers) else and_later c n later
flush_from tail (not_sent eintr ∷ answers) c =
    let later = flush_from tail answers c in
    if ring_size c.out == 0 then finish tail c (not_sent eintr ∷ answers) else later
flush_from tail (not_sent e ∷ answers) c =
    if ring_size c.out == 0 then finish tail c (not_sent e ∷ answers) else stop c (error e) answers

unfoldable pub connection_flush : Connection → List Sent → Flush
connection_flush c answers =
    let f = flush_from c.out.tail answers c in
    if c.want_flush then f else stop c (flushed 0) answers

-- How wl_connection_queue and wl_connection_put_fd end.
pub data Queued : Type 0 where
  queued : Queued
  refused : Errno → Queued
  waits : Queued

pub record Queueing : Type 0 where
  pub status : Queued
  pub flush : Flush

-- What is done with the connection after a flush: nothing where it fails, but for EAGAIN. A number of
-- bytes that is negative as an int is taken for a failure; errno is then what an earlier call has
-- left, here one other than EAGAIN.
abbrev pub unless_failed : Flush → (Connection → Queued × Connection) → Queueing
unless_failed f next =
    let go_on : Queueing =
      (let (status, c) = next f.connection in
        record { status = status; flush = record f { connection = c } }) in
    elim f.outcome [
      | flushed n ↦ if is_negative n then record { status = refused other; flush = f } else go_on
      | error eagain ↦ go_on
      | error e ↦ record { status = refused e; flush = f }
      | blocked ↦ record { status = waits; flush = f }
    ]

module _ (can_alloc : ℕ → Bool) where
  unfoldable pub put_out : List ℕ → Connection → Queued × Connection
  put_out bytes c = elim (ring_ensure_space can_alloc c.out (length bytes)) [
    | ready b ↦ (queued, record c { out = ring_put b bytes })
    | too_big ↦ (refused e2big, c)
    | no_memory ↦ (refused enomem, c)
  ]

  unfoldable pub put_fds_out : List ℕ → Connection → Queued × Connection
  put_fds_out bytes c = elim (ring_ensure_space can_alloc c.fds_out (length bytes)) [
    | ready b ↦ (queued, record c { fds_out = ring_put b bytes })
    | too_big ↦ (refused e2big, c)
    | no_memory ↦ (refused enomem, c)
  ]

  unfoldable pub connection_queue : Connection → List ℕ → List Sent → Queueing
  connection_queue c bytes answers =
      let flush = connection_flush (record c { want_flush = true }) answers in
      let room = stop c (flushed 0) answers in
      unless_failed
        (if ltb buffer_default_max_size (ring_size c.out + length bytes) then flush else room)
        (put_out bytes)

  unfoldable pub connection_write : Connection → List ℕ → List Sent → Queueing
  connection_write c bytes answers =
      let q = connection_queue c bytes answers in
      elim q.status [
        | queued ↦ record q {
          flush = record (q.flush) {
            connection = record (q.flush.connection) { want_flush = true };
          };
        }
        | refused e ↦ q
        | waits ↦ q
      ]

  unfoldable pub connection_put_fd : Connection → ℕ → List Sent → Queueing
  connection_put_fd c fd answers =
      let flush = connection_flush (record c { want_flush = true }) answers in
      let room = stop c (flushed 0) answers in
      unless_failed (if leb (max_fds_out * 4) (ring_size c.fds_out) then flush else room)
        (put_fds_out (word_bytes fd))

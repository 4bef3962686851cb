-- ===== src/Wayland/Connection/Send/Queue.antt =====
-- wl_connection_queue and wl_connection_put_fd of packages/wayland/build/src/connection.c: what is queued
-- goes out behind what was queued before.
use mathlib.Core.List.{append_assoc, append-nil}
use k1os.Prelude.{
  ℕ, ◌+◌, ◌^◌, ◌≤◌, ◌≡◌, refl, sym, ap, ◌∙◌, Bool, Bool-cases, inl, inr, true, false, List, [],
  ◌++◌, arith, ltb, if◌then◌else◌, length, length-append,
}
use k1os.Wayland.Word.{is_negative}
use k1os.Wayland.IdMap.{enomem, e2big, eagain, other}
use k1os.Wayland.Ring.{
  Ring, Ensured, ready, too_big, no_memory, ring_size, ring_put, ring_ensure_space,
}
use k1os.Wayland.Ring.Contents.{IsRing, contents, length-contents, ring_put_lem}
use k1os.Wayland.Ring.Space.{Answered, given, over_limit, out_of_memory, ring_ensure_space_lem}
use k1os.Wayland.Connection.{Connection, buffer_default_max_size}
use k1os.Wayland.Connection.Send.{
  Sent, Flush, Outcome, flushed, error, blocked, stop, connection_flush, Queued, queued, refused,
  waits, Queueing, unless_failed, put_out, connection_queue, connection_write,
}
use k1os.Wayland.Connection.Send.Flushing.{IsSender, Obeys, Kept, flush-Kept, stop-Kept}

-- The bytes that are added, on each way to end.
abbrev pub added : Queued → List ℕ → List ℕ
added queued bytes = bytes
added (refused e) bytes = []
added waits bytes = []

-- The bytes that were queued, those that are added, and what went out and what is queued now.
pub record Appended (c : Connection) (bytes : List ℕ) (q : Queueing) : Type 0 where
  pub out_valid : IsRing q.flush.connection.out
  pub bytes_lem :
      contents c.out ++ added q.status bytes ≡ q.flush.wire ++ contents q.flush.connection.out
  pub fds_lem : contents c.fds_out ≡ q.flush.wire_fds ++ contents q.flush.connection.fds_out

-- A queue with room for so many bytes more.
abbrev pub Allows : Ring → ℕ → Type 0
Allows b count = (b.max_size_bits ≤ 62) × (ring_size b + count ≤ 2 ^ 62)

-- Where there is no room there is a flush first.
pub room-Kept :
    (c : Connection) (answers : List Sent)
    → IsSender c
    → Obeys answers (record c { want_flush = true })
    → (full : Bool)
    → Kept c (
        if full
        then connection_flush (record c { want_flush = true }) answers
        else stop c (flushed 0) answers)
room-Kept c answers v o false = stop-Kept c (flushed 0) answers v
room-Kept c answers v o true =
    let v' : IsSender (record c { want_flush = true }) = record {
      out_valid = v.out_valid;
      fds_valid = v.fds_valid;
    } in
    let k = flush-Kept (record c { want_flush = true }) answers v' o in
    record {
      valid = k.valid;
      bytes_lem = k.bytes_lem;
      fds_lem = k.fds_lem;
      closed_lem = k.closed_lem;
      input_lem = k.input_lem;
      fds_in_lem = k.fds_in_lem;
      limit_lem = k.limit_lem;
      fds_limit_lem = k.fds_limit_lem;
    }

module _ (can_alloc : ℕ → Bool) (bytes : List ℕ) where
  -- What putting the bytes comes to.
  record IsPut (c : Connection) (r : Queued × Connection) : Type 0 where
    out_valid : IsRing r.1.out
    bytes_lem : contents r.1.out ≡ contents c.out ++ added r.0 bytes
    fds_lem : r.1.fds_out ≡ c.fds_out

  put_out-IsPut :
      (c : Connection)
      → IsRing c.out
      → Allows c.out (length bytes)
      → IsPut c (put_out can_alloc bytes c)
  unfolding put_out
  put_out-IsPut c v a =
      by_answer (ring_ensure_space can_alloc c.out (length bytes))
        (ring_ensure_space_lem can_alloc c.out (length bytes) v a.0 a.1)
    where
      by_answer :
          (e : Ensured)
          → Answered can_alloc c.out (length bytes) e
          → IsPut c (elim e [
            | ready b ↦ (queued, record c { out = ring_put b bytes })
            | too_big ↦ (refused e2big, c)
            | no_memory ↦ (refused enomem, c)
          ])
      by_answer (ready b) (given w same room limit) =
          let p = ring_put_lem b bytes w room in
          record {
            out_valid = p.1;
            bytes_lem = p.0 ∙ ap (λ (xs : List ℕ). xs ++ bytes) same;
            fds_lem = refl;
          }
      by_answer too_big (over_limit l m) = record {
        out_valid = v;
        bytes_lem = sym (append-nil (contents c.out));
        fds_lem = refl;
      }
      by_answer no_memory (out_of_memory m) = record {
        out_valid = v;
        bytes_lem = sym (append-nil (contents c.out));
        fds_lem = refl;
      }

  -- After a flush, where nothing is added.
  pub Kept-Appended :
      (c : Connection) (f : Flush) (q : Queued)
      → added q bytes ≡ []
      → Kept c f
      → Appended c bytes (record { status = q; flush = f })
  Kept-Appended c f q none_added k = record {
    out_valid = k.valid.out_valid;
    bytes_lem = ap (◌++◌ (contents c.out)) none_added ∙ append-nil (contents c.out) ∙ k.bytes_lem;
    fds_lem = k.fds_lem;
  }

  -- After a flush, where the bytes are put.
  put-Appended :
      (c : Connection) (f : Flush)
      → Kept c f
      → Allows c.out (length bytes)
      → Appended c bytes (
          let (status, c') = put_out can_alloc bytes f.connection in
          record { status = status; flush = record f { connection = c' } })
  put-Appended c f k a =
      let shrinks : ring_size f.connection.out ≤ ring_size c.out = omega (
        arith,
        ap length k.bytes_lem,
        length-contents c.out,
        length-append f.wire (contents f.connection.out),
        length-contents f.connection.out,
      ) in
      let p =
        put_out-IsPut f.connection k.valid.out_valid
          (omega (arith, k.limit_lem, a), omega (arith, shrinks, a)) in
      let q = put_out can_alloc bytes f.connection in
      record {
        out_valid = p.out_valid;
        bytes_lem =
            ap (λ (xs : List ℕ). xs ++ added q.0 bytes) k.bytes_lem
            ∙ append_assoc f.wire (contents f.connection.out) (added q.0 bytes)
            ∙ ap (◌++◌ f.wire) (sym p.bytes_lem);
        fds_lem = k.fds_lem ∙ ap (λ (b : Ring). f.wire_fds ++ contents b) (sym p.fds_lem);
      }

  unless_failed-Appended :
      (c : Connection) (f : Flush)
      → Kept c f
      → Allows c.out (length bytes)
      → Appended c bytes (unless_failed f (put_out can_alloc bytes))
  unless_failed-Appended c f k a = by_outcome f.outcome
    where
      go_on : Queueing
      go_on =
          let (status, c') = put_out can_alloc bytes f.connection in
          record { status = status; flush = record f { connection = c' } }

      by_outcome :
          (o : Outcome)
          → Appended c bytes (elim o [
            | flushed n ↦
                if is_negative n then record { status = refused other; flush = f } else go_on
            | error eagain ↦ go_on
            | error e ↦ record { status = refused e; flush = f }
            | blocked ↦ record { status = waits; flush = f }
          ])
      by_outcome (flushed n) = elim (Bool-cases (is_negative n)) [
        | inl e ↦ rw e (Kept-Appended c f (refused other) refl k)
        | inr e ↦ rw e (put-Appended c f k a)
      ]
      by_outcome (error eagain) = put-Appended c f k a
      by_outcome (error e) = Kept-Appended c f (refused e) refl k
      by_outcome blocked = Kept-Appended c f waits refl k

  connection_queue-Appended :
      (c : Connection) (answers : List Sent)
      → IsSender c
      → Allows c.out (length bytes)
      → Obeys answers (record c { want_flush = true })
      → Appended c bytes (connection_queue can_alloc c bytes answers)
  unfolding connection_queue
  connection_queue-Appended c answers v a o =
      unless_failed-Appended c _
        (room-Kept c answers v o (ltb buffer_default_max_size (ring_size c.out + length bytes))) a

  -- wl_connection_write puts its bytes behind those that are queued, or adds none where it fails or
  -- waits; what went out and what is queued are then, in order, what was queued before with the
  -- bytes added, and the descriptors that were queued have gone out from the oldest on or are queued
  -- still. This holds for sound queues of at most 2 ^ 62 bytes with the new ones, whatever is left
  -- of the memory, where sendmsg takes at least one byte of what it is offered.
  pub connection_write-Appended :
      (c : Connection) (answers : List Sent)
      → IsSender c
      → Allows c.out (length bytes)
      → Obeys answers (record c { want_flush = true })
      → Appended c bytes (connection_write can_alloc c bytes answers)
  unfolding connection_write
  connection_write-Appended c answers v a o =
      let q = connection_queue can_alloc c bytes answers in
      by_status q.status refl (connection_queue-Appended c answers v a o)
    where
      by_status :
          (s : Queued)
          → (connection_queue can_alloc c bytes answers).status ≡ s
          → Appended c bytes (connection_queue can_alloc c bytes answers)
          → Appended c bytes (elim s [
            | queued ↦ record (connection_queue can_alloc c bytes answers) {
              flush = record ((connection_queue can_alloc c bytes answers).flush) {
                connection =
                    record ((connection_queue can_alloc c bytes answers).flush.connection) {
                      want_flush = true;
                    };
              };
            }
            | refused e ↦ connection_queue can_alloc c bytes answers
            | waits ↦ connection_queue can_alloc c bytes answers
          ])
      by_status queued e p = record {
        out_valid = p.out_valid;
        bytes_lem = p.bytes_lem;
        fds_lem = p.fds_lem;
      }
      by_status (refused r) e p = p
      by_status waits e p = p

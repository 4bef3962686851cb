-- ===== src/Wayland/Connection/Send/Descriptors.antt =====
-- wl_connection_put_fd of packages/wayland/build/src/connection.c: a descriptor goes out behind those that
-- were queued before.
use mathlib.Core.List.{append_assoc, append-nil}
use k1os.Prelude.{
  if◌then◌else◌, ◌<◌, leb→le, leb→lt, ℕ, ◌*◌, ◌≤◌, ◌≡◌, refl, sym, subst, ap, ◌∙◌, Bool, Bool-cases,
  inl, inr, true, List, [], ◌++◌, arith, leb, length, length-append,
}
use k1os.Wayland.Word.{is_negative, word_bytes, length-word_bytes}
use k1os.Wayland.IdMap.{enomem, e2big, eagain, other}
use k1os.Wayland.Ring.{
  Ring, Ensured, ready, too_big, no_memory, ring_size, ring_put, ring_ensure_space,
}
use k1os.Wayland.Ring.Contents.{IsRing, contents, length-contents, ring_put_lem}
use k1os.Wayland.Ring.Space.{Answered, given, over_limit, out_of_memory, ring_ensure_space_lem}
use k1os.Wayland.Connection.{Connection, max_fds_out}
use k1os.Wayland.Connection.Send.{
  Sent, Flush, Outcome, flushed, error, blocked, Queued, queued, refused, waits, Queueing,
  unless_failed, put_fds_out, connection_put_fd, stop, connection_flush,
}
use k1os.Wayland.Connection.Send.Flushing.{IsSender, Obeys, Kept}
use k1os.Wayland.Connection.Send.Queue.{added, Allows, room-Kept}

-- Where the queue holds what one message takes, there is the flush that is wanted; else there is none.
pub data FlushedFirst (c : Connection) (answers : List Sent) (q : Queueing) : Type 0 where
  full :
      max_fds_out * 4 ≤ ring_size c.fds_out
      → q.flush.wire ≡ (connection_flush (record c { want_flush = true }) answers).wire
      → q.flush.wire_fds ≡ (connection_flush (record c { want_flush = true }) answers).wire_fds
      → FlushedFirst c answers q
  has_room :
      ring_size c.fds_out < max_fds_out * 4
      → q.flush.wire ≡ []
      → q.flush.wire_fds ≡ []
      → FlushedFirst c answers q

-- What went out and what is queued, with the descriptor where it is added.
pub record FdAppended (c : Connection) (bytes : List ℕ) (q : Queueing) : Type 0 where
  pub out_valid : IsRing q.flush.connection.out
  pub fds_valid : IsRing q.flush.connection.fds_out
  pub bytes_lem : contents c.out ≡ q.flush.wire ++ contents q.flush.connection.out
  pub fds_lem :
      contents c.fds_out ++ added q.status bytes
      ≡ q.flush.wire_fds ++ contents q.flush.connection.fds_out

module _ (can_alloc : ℕ → Bool) (bytes : List ℕ) where
  record IsFdPut (c : Connection) (r : Queued × Connection) : Type 0 where
    fds_valid : IsRing r.1.fds_out
    fds_lem : contents r.1.fds_out ≡ contents c.fds_out ++ added r.0 bytes
    out_lem : r.1.out ≡ c.out

  put_fds_out-IsFdPut :
      (c : Connection)
      → IsRing c.fds_out
      → Allows c.fds_out (length bytes)
      → IsFdPut c (put_fds_out can_alloc bytes c)
  unfolding put_fds_out
  put_fds_out-IsFdPut c v a =
      by_answer (ring_ensure_space can_alloc c.fds_out (length bytes))
        (ring_ensure_space_lem can_alloc c.fds_out (length bytes) v a.0 a.1)
    where
      by_answer :
          (e : Ensured)
          → Answered can_alloc c.fds_out (length bytes) e
          → IsFdPut c (elim e [
            | ready b ↦ (queued, record c { fds_out = ring_put b bytes })
            | too_big ↦ (refused e2big, c)
            | no_memory ↦ (refused enomem, c)
          ])
      by_answer (ready b) (given w same room limit) =
          let p = ring_put_lem b bytes w room in
          record {
            fds_valid = p.1;
            fds_lem = p.0 ∙ ap (λ (xs : List ℕ). xs ++ bytes) same;
            out_lem = refl;
          }
      by_answer too_big (over_limit l m) = record {
        fds_valid = v;
        fds_lem = sym (append-nil (contents c.fds_out));
        out_lem = refl;
      }
      by_answer no_memory (out_of_memory m) = record {
        fds_valid = v;
        fds_lem = sym (append-nil (contents c.fds_out));
        out_lem = refl;
      }

  -- After a flush, where nothing is added.
  Kept-FdAppended :
      (c : Connection) (f : Flush) (q : Queued)
      → added q bytes ≡ []
      → Kept c f
      → FdAppended c bytes (record { status = q; flush = f })
  Kept-FdAppended c f q none_added k = record {
    out_valid = k.valid.out_valid;
    fds_valid = k.valid.fds_valid.valid;
    bytes_lem = k.bytes_lem;
    fds_lem =
        ap (◌++◌ (contents c.fds_out)) none_added ∙ append-nil (contents c.fds_out) ∙ k.fds_lem;
  }

  -- After a flush, where the descriptor is put.
  put-FdAppended :
      (c : Connection) (f : Flush)
      → Kept c f
      → Allows c.fds_out (length bytes)
      → FdAppended c bytes (
          let (status, c') = put_fds_out can_alloc bytes f.connection in
          record { status = status; flush = record f { connection = c' } })
  put-FdAppended c f k a =
      let shrinks : ring_size f.connection.fds_out ≤ ring_size c.fds_out = omega (
        arith,
        ap length k.fds_lem,
        length-contents c.fds_out,
        length-append f.wire_fds (contents f.connection.fds_out),
        length-contents f.connection.fds_out,
      ) in
      let p =
        put_fds_out-IsFdPut f.connection k.valid.fds_valid.valid
          (omega (arith, k.fds_limit_lem, a), omega (arith, shrinks, a)) in
      let q = put_fds_out can_alloc bytes f.connection in
      record {
        out_valid = subst IsRing (sym p.out_lem) k.valid.out_valid;
        fds_valid = p.fds_valid;
        bytes_lem = k.bytes_lem ∙ ap (λ (b : Ring). f.wire ++ contents b) (sym p.out_lem);
        fds_lem =
            ap (λ (xs : List ℕ). xs ++ added q.0 bytes) k.fds_lem
            ∙ append_assoc f.wire_fds (contents f.connection.fds_out) (added q.0 bytes)
            ∙ ap (◌++◌ f.wire_fds) (sym p.fds_lem);
      }

  unless_failed-FdAppended :
      (c : Connection) (f : Flush)
      → Kept c f
      → Allows c.fds_out (length bytes)
      → FdAppended c bytes (unless_failed f (put_fds_out can_alloc bytes))
  unless_failed-FdAppended c f k a = by_outcome f.outcome
    where
      go_on : Queueing
      go_on =
          let (status, c') = put_fds_out can_alloc bytes f.connection in
          record { status = status; flush = record f { connection = c' } }

      by_outcome :
          (o : Outcome)
          → FdAppended c bytes (elim o [
            | flushed n ↦
                if is_negative n then record { status = refused other; flush = f } else go_on
            | error eagain ↦ go_on
            | error e ↦ record { status = refused e; flush = f }
            | blocked ↦ record { status = waits; flush = f }
          ])
      by_outcome (flushed n) = elim (Bool-cases (is_negative n)) [
        | inl e ↦ rw e (Kept-FdAppended c f (refused other) refl k)
        | inr e ↦ rw e (put-FdAppended c f k a)
      ]
      by_outcome (error eagain) = put-FdAppended c f k a
      by_outcome (error e) = Kept-FdAppended c f (refused e) refl k
      by_outcome blocked = Kept-FdAppended c f waits refl k

module _ (can_alloc : ℕ → Bool) where
  -- What goes out is what the flush sends.
  unless_failed-wire :
      (f : Flush) (next : Connection → Queued × Connection)
      → ((unless_failed f next).flush.wire ≡ f.wire)
        × ((unless_failed f next).flush.wire_fds ≡ f.wire_fds)
  unless_failed-wire f next = by_outcome f.outcome
    where
      go_on : Queueing
      go_on =
          let (status, c') = next f.connection in
          record { status = status; flush = record f { connection = c' } }

      by_outcome :
          (o : Outcome)
          → let q : Queueing = elim o as (λ x. Queueing) [
            | flushed n ↦
                if is_negative n then record { status = refused other; flush = f } else go_on
            | error eagain ↦ go_on
            | error e ↦ record { status = refused e; flush = f }
            | blocked ↦ record { status = waits; flush = f }
          ] in
            (q.flush.wire ≡ f.wire) × (q.flush.wire_fds ≡ f.wire_fds)
      by_outcome (flushed n) = elim (Bool-cases (is_negative n)) [
        | inl e ↦ rw e (refl, refl)
        | inr e ↦ rw e (refl, refl)
      ]
      by_outcome (error eagain) = (refl, refl)
      by_outcome (error e) = (refl, refl)
      by_outcome blocked = (refl, refl)

  connection_put_fd-FlushedFirst :
      (c : Connection) (fd : ℕ) (answers : List Sent)
      → FlushedFirst c answers (connection_put_fd can_alloc c fd answers)
  unfolding connection_put_fd
  connection_put_fd-FlushedFirst c fd answers =
      elim (Bool-cases (leb (max_fds_out * 4) (ring_size c.fds_out))) [
        | inl e ↦
            let w =
              unless_failed-wire (connection_flush (record c { want_flush = true }) answers)
                (put_fds_out can_alloc (word_bytes fd)) in
            rw e (full (leb→le _ _ e) w.0 w.1)
        | inr e ↦
            let w =
              unless_failed-wire (stop c (flushed 0) answers)
                (put_fds_out can_alloc (word_bytes fd)) in
            rw e (has_room (leb→lt _ _ e) w.0 w.1)
      ]

  -- wl_connection_put_fd puts a descriptor behind those that are queued, after a flush where they
  -- are as many as a message takes, and with none where they are fewer, or adds none where it fails or waits; the descriptors that went out and those
  -- that are queued are then, in order, those that were queued with the new one, and the bytes that
  -- were queued have gone out from the oldest on or are queued still. This holds for sound queues
  -- of at most 2 ^ 62 bytes with the new ones, whatever is left of the memory, where sendmsg takes at
  -- least one byte of what it is offered.
  pub connection_put_fd-FdAppended :
      (c : Connection) (fd : ℕ) (answers : List Sent)
      → IsSender c
      → Allows c.fds_out 4
      → Obeys answers (record c { want_flush = true })
      → FdAppended c (word_bytes fd) (connection_put_fd can_alloc c fd answers)
        × FlushedFirst c answers (connection_put_fd can_alloc c fd answers)
  unfolding connection_put_fd
  connection_put_fd-FdAppended c fd answers v a o = (
    unless_failed-FdAppended can_alloc (word_bytes fd) c _
        (room-Kept c answers v o (leb (max_fds_out * 4) (ring_size c.fds_out)))
        (subst (Allows c.fds_out) (sym (length-word_bytes fd)) a),
    connection_put_fd-FlushedFirst c fd answers,
  )

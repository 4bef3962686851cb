-- ===== src/Wayland/Closure/Sending.antt =====
-- copy_fds_to_connection, wl_closure_send and wl_closure_queue of
-- packages/wayland/build/src/connection.c: a closure goes to a connection.
pub mod Laws
use k1os.Prelude.{
  ℕ, ◌*◌, Bool, true, false, Option, none, some, List, [], ◌∷◌, ◌++◌, if◌then◌else◌, take, ◌>>=◌,
}
use k1os.Wayland.Word.{is_negative}
use k1os.Wayland.IdMap.{enomem, erange, other}
use k1os.Wayland.Signature.{ArgumentDetails}
use k1os.Wayland.Closure.{
  Argument, number, text, reference, name, bytes, descriptor, no_fd, is_fd, Closure, Object,
  details_of,
}
use k1os.Wayland.Closure.Serialize.{
  Serialized, serialized, serialize_closure, buffer_size_for_closure,
}
use k1os.Wayland.Connection.{Connection}
use k1os.Wayland.Connection.Send.{
  Sent, Flush, flushed, stop, Queued, queued, refused, waits, Queueing, connection_put_fd,
  connection_queue, connection_write,
}

-- The arguments that are left, and what became of the connection.
pub record Posted : Type 0 where
  pub args : List Argument
  pub queueing : Queueing

-- `h`, of an argument that is a descriptor.
unfoldable pub handle : Argument → Option ℕ
handle (descriptor h) = some h
handle a = none

-- What went out before the rest went out.
abbrev pub joined : Flush → Queueing → Queueing
joined f q = record q {
  flush = record (q.flush) {
    wire = f.wire ++ q.flush.wire;
    wire_fds = f.wire_fds ++ q.flush.wire_fds;
    closed = f.closed ++ q.flush.closed;
  };
}

abbrev untouched : Connection → List Sent → Queueing
untouched c answers = record { status = queued; flush = stop c (flushed 0) answers }

-- The end: the message is written, or it did not fit. A size that is negative as an int is taken for
-- a failure, with no errno of its own.
unfoldable pub conclude :
    (Connection → List ℕ → List Sent → Queueing) → Posted → Serialized → Posted
conclude write p (serialized n buffer) =
    let flush = p.queueing.flush in
    if is_negative n
    then record p { queueing = record (p.queueing) { status = refused other } }
    else record p { queueing = joined flush (write flush.connection (take n buffer) flush.answers) }
conclude write p Serialized.erange = record p {
  queueing = record (p.queueing) { status = refused erange };
}

-- A result of `none` is a read of a member of the union that is not in use.
module _ (memory : ℕ → Object) (can_alloc : ℕ → Bool) where
  -- The loop of copy_fds_to_connection.
  unfoldable pub copy_fds :
      List ArgumentDetails → List Argument → Connection → List Sent → Option Posted
  copy_fds [] args c answers = some (record { args = args; queueing = untouched c answers })
  copy_fds (d ∷ ds) [] c answers = none
  copy_fds (d ∷ ds) (a ∷ args) c answers =
      let kept : Option Posted =
        (copy_fds ds args c answers >>= λ r. some (record r { args = a ∷ r.args })) in
      let moved : Option Posted =
        (handle a >>= λ h.
        let q = connection_put_fd can_alloc c h answers in
        elim q.status [
          | queued ↦ copy_fds ds args q.flush.connection q.flush.answers >>= λ r.
              some
                (record { args = descriptor no_fd ∷ r.args; queueing = joined q.flush r.queueing })
          | refused e ↦ some (record { args = a ∷ args; queueing = q })
          | waits ↦ some (record { args = a ∷ args; queueing = q })
        ]) in
      if is_fd d.type then moved else kept

  -- What wl_closure_send and wl_closure_queue have in common: `fresh` is what malloc or zalloc leaves
  -- in the memory, and `write` is how the connection takes the message.
  unfoldable pub post :
      (ℕ → List ℕ)
      → (Connection → List ℕ → List Sent → Queueing)
      → Closure
      → Connection
      → List Sent
      → Option Posted
  post fresh write c conn answers = do
    copied ← copy_fds (details_of c.message) c.args conn answers
    let flush = copied.queueing.flush in
        let size = buffer_size_for_closure c * 4 in
        let fails : Option Posted = some copied in
        let out_of_memory : Option Posted =
          some
            (record copied { queueing = record (copied.queueing) { status = refused enomem } }) in
        let written : Option Posted =
          (serialize_closure memory (record c { args = copied.args }) (fresh size) >>= λ s.
          some (conclude write copied s)) in
        elim copied.queueing.status [
          | queued ↦ if can_alloc size then written else out_of_memory
          | refused e ↦ fails
          | waits ↦ fails
        ]

  unfoldable pub closure_send : (ℕ → List ℕ) → Closure → Connection → List Sent → Option Posted
  closure_send zeros = post zeros (connection_write can_alloc)

  unfoldable pub closure_queue : (ℕ → List ℕ) → Closure → Connection → List Sent → Option Posted
  closure_queue fresh = post fresh (connection_queue can_alloc)

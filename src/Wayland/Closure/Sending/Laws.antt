-- ===== src/Wayland/Closure/Sending/Laws.antt =====
-- What wl_closure_send of packages/wayland/build/src/connection.c adds to a connection.
use k1os.Prelude.{
  Bool-cases, inl, inr, ℕ, ◌+◌, ◌*◌, ◌^◌, ◌<◌, ◌≡◌, refl, sym, subst, ap, ap₂, ◌∙◌, Bool, true,
  false, Option, some, List, [], ◌∷◌, arith, length, take, take_all, replicate, length-replicate,
  Succeeds, succeeds, ◌>>=◌,
}
use k1os.Wayland.Word.{is_negative}
use k1os.Wayland.IdMap.{other}
use k1os.Wayland.Signature.{ArgumentDetails}
use k1os.Wayland.Closure.{Argument, is_fd, Closure, Object, details_of}
use k1os.Wayland.Closure.Serialize.{
  Serialized, serialized, erange, serialize_closure, buffer_size_for_closure,
}
use k1os.Wayland.Closure.Room.{AllFit, words_of, Filled, serialize_closure-Filled}
use k1os.Wayland.Closure.Sending.{Posted, copy_fds, conclude, post, closure_send}
use k1os.Wayland.Connection.{Connection}
use k1os.Wayland.Connection.Send.{refused, Sent, queued, flushed, stop, connection_write}
use k1os.Wayland.Connection.Send.Flushing.{IsSender, Obeys, stop-Kept}
use k1os.Wayland.Connection.Send.Queue.{Kept-Appended, Appended, Allows, connection_write-Appended}

-- None of the arguments is a descriptor.
abbrev pub NoFds : List ArgumentDetails → Type 0
NoFds [] = Unit
NoFds (d ∷ ds) = (is_fd d.type ≡ false) × NoFds ds

module _ (memory : ℕ → Object) (can_alloc : ℕ → Bool) where
  abbrev zeros : ℕ → List ℕ
  zeros n = replicate n 0

  abbrev copied : List Argument → Connection → List Sent → Posted
  copied args c answers = record {
    args = args;
    queueing = record { status = queued; flush = stop c (flushed 0) answers };
  }

  copy_fds_none :
      (ds : List ArgumentDetails) (args : List Argument) (c : Connection) (answers : List Sent)
      → NoFds ds
      → AllFit memory ds args
      → copy_fds memory can_alloc ds args c answers ≡ some (copied args c answers)
  unfolding copy_fds
  copy_fds_none [] args c answers none_is h = refl
  copy_fds_none (d ∷ ds) [] c answers none_is h = elim h [ ]
  copy_fds_none (d ∷ ds) (a ∷ args) c answers (one, others) h =
      rw one (rw (copy_fds_none ds args c answers others h.1) refl)

  -- The message of the closure, and what is queued with it.
  pub record Messaged (c : Closure) (conn : Connection) (p : Posted) : Type 0 where
    pub message : List ℕ
    pub message_lem :
        serialize_closure memory c (zeros (buffer_size_for_closure c * 4))
        ≡ some (serialized (length message) message)
    pub args_lem : p.args ≡ c.args
    pub appended : Appended conn message p.queueing

  -- wl_closure_send of a closure without descriptors puts the message that serialize_closure makes
  -- of it behind what the connection has queued, or adds nothing where it fails or waits; what went
  -- out and what is queued are then, in order, what was queued before with the message added, and
  -- the arguments stay as they are. This holds for arguments that fit their types, a message below 2
  -- ^ 32 bytes, memory for its buffer, sound queues of at most 2 ^ 62 bytes with it, and where
  -- sendmsg takes at least one byte of what it is offered.
  pub closure_send-Messaged :
      (c : Closure) (conn : Connection) (answers : List Sent)
      → NoFds (details_of c.message)
      → AllFit memory (details_of c.message) c.args
      → 4 * (words_of (details_of c.message) c.args + 2) < 2 ^ 32
      → can_alloc (buffer_size_for_closure c * 4) ≡ true
      → IsSender conn
      → Allows conn.out (buffer_size_for_closure c * 4)
      → Obeys answers (record conn { want_flush = true })
      → Succeeds (Messaged c conn) (closure_send memory can_alloc zeros c conn answers)
  unfolding closure_send post conclude
  closure_send-Messaged c conn answers no_fds fit small memory_left v a o =
      rw (copy_fds_none (details_of c.message) c.args conn answers no_fds fit) (
        rw memory_left (
          by_result _ refl (
            serialize_closure-Filled memory c (zeros size) fit small
              (length-replicate {A = ℕ} size 0 ∙ omega arith))))
    where
      size : ℕ
      size = buffer_size_for_closure c * 4

      start : Posted
      start = copied c.args conn answers

      by_result :
          (s : Option Serialized)
          → serialize_closure memory c (zeros size) ≡ s
          → Succeeds (Filled (zeros size)) s
          → Succeeds
              (Messaged c conn)
              (s >>= λ s'. some (conclude (connection_write can_alloc) start s'))
      by_result _ e (succeeds {v = erange} filled) = elim filled [ ]
      by_result _ e (succeeds {v = serialized n buffer} filled) =
          let whole : take n buffer ≡ buffer = take_all n buffer (filled.1 ∙ sym filled.0) in
          let sized : length (take n buffer) ≡ length (zeros size) = ap length whole ∙ filled.1 in
          let message_lem : serialize_closure memory c (zeros size)
              ≡ some (serialized (length (take n buffer)) (take n buffer)) =
            e
            ∙ ap₂ (λ (k : ℕ) (bs : List ℕ). some (serialized k bs)) (filled.0 ∙ sym sized)
                (sym whole) in
          elim (Bool-cases (is_negative n)) [
            | inl negative ↦ rw negative (
                succeeds (record {
                  message = take n buffer;
                  message_lem = message_lem;
                  args_lem = refl;
                  appended =
                      Kept-Appended can_alloc (take n buffer) conn (stop conn (flushed 0) answers)
                        (refused other) refl (stop-Kept conn (flushed 0) answers v);
                }))
            | inr fine ↦ rw fine (
                succeeds (record {
                  message = take n buffer;
                  message_lem = message_lem;
                  args_lem = refl;
                  appended =
                      connection_write-Appended can_alloc (take n buffer) conn answers v
                        (subst (Allows conn.out) (sym (sized ∙ length-replicate {A = ℕ} size 0)) a)
                        o;
                }))
          ]

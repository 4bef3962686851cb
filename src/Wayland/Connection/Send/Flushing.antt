-- ===== src/Wayland/Connection/Send/Flushing.antt =====
-- What wl_connection_flush of packages/wayland/build/src/connection.c sends and keeps.
use mathlib.Core.List.{append_assoc}
use native.Mathlib.Nat.{mod-lt}
use k1os.Prelude.{
  ℕ, zero, suc, ◌+◌, ◌*◌, ◌%◌, ◌≤◌, ◌<◌, ◌≡◌, ◌⊎◌, inl, inr, refl, sym, ap, ap₂, ◌∙◌, Bool, true,
  false, List, [], ◌∷◌, ◌++◌, arith, ltb, leb, ◌==◌, if◌then◌else◌, length, take, drop, min, le→leb,
  lt→leb, ==_ne, ==_eq, ℕ_discrete, two-pow-pos, length-take, take_all, lt→ltb, dec_le,
}
use k1os.Wayland.Word.{int_word, words, words-append}
use k1os.Wayland.Cyclic.{take-window}
use k1os.Wayland.Block.{slice-window}
use k1os.Wayland.IdMap.{eintr}
use k1os.Wayland.Ring.{Ring, ring_size, capacity, ring_consume, ring_copy}
use k1os.Wayland.Ring.Contents.{
  IsRing, contents, length-contents, ring_consume_lem, ring_size-ring_consume, ring_copy_lem,
  ring_get_iov_lem,
}
use k1os.Wayland.Connection.{Connection, close_fds, max_fds_out, clen_max}
use k1os.Wayland.Connection.Send.{
  Sent, sent, not_sent, control_fds, control_len, offered, Outcome, flushed, error, blocked, Flush,
  after_send, stop, and_later, finish, flush_from, connection_flush,
}
use k1os.Wayland.Connection.Send.Closing.{IsFds, closing, close_fds_lem, closing_lem}

-- The queues of a connection that is to send.
pub record IsSender (c : Connection) : Type 0 where
  pub out_valid : IsRing c.out
  pub fds_valid : IsFds c.fds_out

-- What sendmsg does: where it is called it takes at least one byte of what it is offered, and no
-- more than that.
abbrev pub Obeys : List Sent → Connection → Type 0
Obeys [] c = Unit
Obeys (sent n ∷ answers) c =
    (ring_size c.out ≡ 0) ⊎ (1 ≤ n) × (n ≤ length (offered c)) × Obeys answers (after_send c n)
Obeys (not_sent e ∷ answers) c = Obeys answers c

take-drop : (n : ℕ) (xs : List ℕ) → take n xs ++ drop n xs ≡ xs
take-drop zero xs = refl
take-drop (suc n) [] = refl
take-drop (suc n) (x ∷ xs) = ap (◌∷◌ x) (take-drop n xs)

take-take : (n k : ℕ) (xs : List ℕ) → n ≤ k → take n (take k xs) ≡ take n xs
take-take zero k xs h = refl
take-take (suc n) zero xs h = absurd (omega arith)
take-take (suc n) (suc k) [] h = refl
take-take (suc n) (suc k) (x ∷ xs) h = ap (◌∷◌ x) (take-take n k xs (omega arith))

-- The control message holds the descriptors that are closed after it.
control_fds_lem :
    (b : Ring) → IsFds b → control_fds b ≡ take (closing b max_fds_out * 4) (contents b)
unfolding control_fds
control_fds_lem b v =
    let size : ℕ = if ltb 112 (ring_size b) then 112 else ring_size b in
    let same : size ≡ closing b max_fds_out * 4 = ground (arith, v.whole) in
    let inside : size ≤ ring_size b = ground arith in
    by_size size inside ∙ ap (λ (n : ℕ). take n (contents b)) same
  where
    by_size :
        (n : ℕ) → n ≤ ring_size b → (if ltb 0 n then ring_copy b n else []) ≡ take n (contents b)
    by_size zero h = refl
    by_size (suc n) h = rw (lt→ltb 0 (suc n) (omega arith)) (ring_copy_lem b (suc n) v.valid h)

length-control_fds : (b : Ring) → IsFds b → length (control_fds b) ≡ closing b max_fds_out * 4
length-control_fds b v =
    ap length (control_fds_lem b v)
    ∙ length-take (closing b max_fds_out * 4) (contents b)
    ∙ omega (arith, length-contents b, closing_lem b max_fds_out v.whole)

-- How many bytes are offered.
abbrev offer : Connection → ℕ
offer c = if leb 112 (ring_size c.fds_out) then 1 else ring_size c.out

offered_lem :
    (c : Connection)
    → IsSender c
    → 0 < ring_size c.out
    → offered c ≡ take (offer c) (contents c.out)
unfolding offered
offered_lem c v h =
    let pos = two-pow-pos c.out.size_bits in
    let n = length-control_fds c.fds_out v.fds_valid in
    let whole = v.fds_valid.whole in
    elim (dec_le 112 (ring_size c.fds_out)) [
      | yes p ↦
          let full : leb clen_max (control_len (control_fds c.fds_out)) ≡ true = ground arith in
          rw (full, le→leb 112 (ring_size c.fds_out) p)
            (slice-window c.out.buf (capacity c.out) c.out.tail 1 v.out_valid.sized pos
                (omega (arith, pos)) (omega (arith, mod-lt c.out.tail pos))
              ∙ sym (take-window c.out.buf (capacity c.out) c.out.tail (ring_size c.out) 1 h))
      | no p ↦
          let room : leb clen_max (control_len (control_fds c.fds_out)) ≡ false = ground arith in
          rw (room, lt→leb 112 (ring_size c.fds_out) (omega arith))
            (ring_get_iov_lem c.out v.out_valid h
              ∙ sym (take_all (ring_size c.out) (contents c.out) (length-contents c.out)))
    ]

-- One call of sendmsg that sends `n` bytes.
pub record IsStep (c : Connection) (n : ℕ) : Type 0 where
  pub valid : IsSender (after_send c n)
  bytes_lem : contents c.out ≡ take n (offered c) ++ contents (after_send c n).out
  fds_lem : contents c.fds_out ≡ control_fds c.fds_out ++ contents (after_send c n).fds_out
  closed_lem : (close_fds c.fds_out max_fds_out).1 ≡ words (control_fds c.fds_out)
  whole : length (control_fds c.fds_out) % 4 ≡ 0
  pub shrinks : ring_size (after_send c n).out + n ≡ ring_size c.out
  head_lem : (after_send c n).out.head ≡ c.out.head
  limit_lem : (after_send c n).out.max_size_bits ≡ c.out.max_size_bits
  fds_limit_lem : (after_send c n).fds_out.max_size_bits ≡ c.fds_out.max_size_bits
  fewer :
      ring_size c.fds_out ≤ 112 * ring_size c.out
      → ring_size (after_send c n).fds_out ≤ 112 * ring_size (after_send c n).out

pub send-IsStep :
    (c : Connection) (n : ℕ)
    → IsSender c
    → 0 < ring_size c.out
    → 1 ≤ n
    → n ≤ length (offered c)
    → IsStep c n
send-IsStep c n v h one most =
    let o = offered_lem c v h in
    let size = ring_size c.out in
    let length_offered : length (offered c) ≡ min (offer c) size =
      ap length o
      ∙ length-take (offer c) (contents c.out)
      ∙ ap (min (offer c)) (length-contents c.out) in
    let inside : n ≤ size = ground (arith, length_offered) in
    let at_most : n ≤ offer c = ground (arith, length_offered) in
    let consumed = ring_consume_lem c.out n v.out_valid inside in
    let left = ring_size-ring_consume c.out n v.out_valid inside in
    let f = close_fds_lem c.fds_out max_fds_out v.fds_valid in
    let control = control_fds_lem c.fds_out v.fds_valid in
    let fds = closing c.fds_out max_fds_out * 4 in
    record {
      valid = record { out_valid = consumed.1; fds_valid = f.rest_valid };
      bytes_lem =
          sym (take-drop n (contents c.out))
          ∙ ap₂ ◌++◌ (sym (ap (take n) o ∙ take-take n (offer c) (contents c.out) at_most))
              (sym consumed.0);
      fds_lem = sym (take-drop fds (contents c.fds_out)) ∙ ap₂ ◌++◌ (sym control) (sym f.rest_lem);
      closed_lem = f.closed_lem ∙ ap words (sym control);
      whole = omega (arith, length-control_fds c.fds_out v.fds_valid);
      shrinks = omega (arith, left, inside);
      head_lem = unfold ring_consume in refl;
      limit_lem = unfold ring_consume in refl;
      fds_limit_lem = f.limit_lem;
      fewer = λ enough. ground (arith, f.size_lem, left, at_most, v.fds_valid.whole);
    }

-- What a flush sends and keeps: nothing is lost, repeated or moved.
pub record Kept (c : Connection) (f : Flush) : Type 0 where
  pub valid : IsSender f.connection
  pub bytes_lem : contents c.out ≡ f.wire ++ contents f.connection.out
  pub fds_lem : contents c.fds_out ≡ f.wire_fds ++ contents f.connection.fds_out
  pub closed_lem : f.closed ≡ words f.wire_fds
  pub input_lem : f.connection.input ≡ c.input
  pub fds_in_lem : f.connection.fds_in ≡ c.fds_in
  pub limit_lem : f.connection.out.max_size_bits ≡ c.out.max_size_bits
  pub fds_limit_lem : f.connection.fds_out.max_size_bits ≡ c.fds_out.max_size_bits

-- What holds where it ends with the return value `n`.
pub record Drained (tail : ℕ) (c : Connection) (f : Flush) (n : ℕ) : Type 0 where
  pub count_lem : n ≡ int_word (ring_size (record c.out { tail = tail }))
  pub out_lem : ring_size f.connection.out ≡ 0
  pub want_lem : f.connection.want_flush ≡ false
  pub fds_first : ring_size c.fds_out ≤ 112 * ring_size c.out → ring_size f.connection.fds_out ≡ 0

abbrev pub Flushes : ℕ → Connection → Flush → Type 0
Flushes tail c f = Kept c f × ((n : ℕ) → f.outcome ≡ flushed n → Drained tail c f n)

pub stop-Kept :
    (c : Connection) (o : Outcome) (answers : List Sent) → IsSender c → Kept c (stop c o answers)
stop-Kept c o answers v = record {
  valid = v;
  bytes_lem = refl;
  fds_lem = refl;
  closed_lem = unfold words in refl;
  input_lem = refl;
  fds_in_lem = refl;
  limit_lem = refl;
  fds_limit_lem = refl;
}

finish-Flushes :
    (tail : ℕ) (c : Connection) (answers : List Sent)
    → IsSender c
    → ring_size c.out ≡ 0
    → Flushes tail c (finish tail c answers)
finish-Flushes tail c answers v e = (
  record {
    valid = record { out_valid = v.out_valid; fds_valid = v.fds_valid };
    bytes_lem = refl;
    fds_lem = refl;
    closed_lem = unfold words in refl;
    input_lem = refl;
    fds_in_lem = refl;
    limit_lem = refl;
    fds_limit_lem = refl;
  },
  λ n h. record {
    count_lem = cc;
    out_lem = e;
    want_lem = refl;
    fds_first = λ enough. omega (arith, e);
  },
)

stop-Flushes :
    (tail : ℕ) (c : Connection) (o : Outcome) (answers : List Sent)
    → IsSender c
    → ((n : ℕ) → o ≡ flushed n → ⊥)
    → Flushes tail c (stop c o answers)
stop-Flushes tail c o answers v never = (stop-Kept c o answers v, λ n h. absurd (never n h))

-- One call, and the later ones.
later-Flushes :
    (tail : ℕ) (c : Connection) (n : ℕ) (f : Flush)
    → IsStep c n
    → Flushes tail (after_send c n) f
    → Flushes tail c (and_later c n f)
later-Flushes tail c n f s (k, d) = (
  record {
    valid = record { out_valid = k.valid.out_valid; fds_valid = k.valid.fds_valid };
    bytes_lem =
        s.bytes_lem
        ∙ ap (◌++◌ (take n (offered c))) k.bytes_lem
        ∙ sym (append_assoc (take n (offered c)) f.wire (contents f.connection.out));
    fds_lem =
        s.fds_lem
        ∙ ap (◌++◌ (control_fds c.fds_out)) k.fds_lem
        ∙ sym (append_assoc (control_fds c.fds_out) f.wire_fds (contents f.connection.fds_out));
    closed_lem =
        ap₂ ◌++◌ s.closed_lem k.closed_lem
        ∙ sym (words-append (control_fds c.fds_out) f.wire_fds s.whole);
    input_lem = k.input_lem;
    fds_in_lem = k.fds_in_lem;
    limit_lem = k.limit_lem ∙ s.limit_lem;
    fds_limit_lem = k.fds_limit_lem ∙ s.fds_limit_lem;
  },
  λ m h.
      let e = d m h in
      record {
        count_lem = e.count_lem ∙ ap int_word same_head;
        out_lem = e.out_lem;
        want_lem = e.want_lem;
        fds_first = λ enough. e.fds_first (s.fewer enough);
      },
)
  where
    same_head :
        ring_size (record (after_send c n).out { tail = tail })
        ≡ ring_size (record c.out { tail = tail })
    same_head = unfold ring_size ring_consume in refl

-- The test of the loop.
unless_empty :
    (tail : ℕ) (c : Connection) (answers : List Sent) (f : Flush)
    → IsSender c
    → (0 < ring_size c.out → Flushes tail c f)
    → Flushes tail c (if ring_size c.out == 0 then finish tail c answers else f)
unless_empty tail c answers f v h = elim (ℕ_discrete (ring_size c.out) 0) [
  | yes e ↦ rw (==_eq (ring_size c.out) 0 e) (finish-Flushes tail c answers v e)
  | no ne ↦ rw (==_ne (ring_size c.out) 0 ne) (h (omega arith))
]

-- A call that ends the loop with an error, or has no answer.
ends :
    (tail : ℕ) (c : Connection) (o : Outcome) (answers left : List Sent)
    → IsSender c
    → ((n : ℕ) → o ≡ flushed n → ⊥)
    → Flushes tail c (if ring_size c.out == 0 then finish tail c answers else stop c o left)
ends tail c o answers left v never =
    unless_empty tail c answers (stop c o left) v (λ _. stop-Flushes tail c o left v never)

pub flush_from-Flushes :
    (tail : ℕ) (answers : List Sent) (c : Connection)
    → IsSender c
    → Obeys answers c
    → Flushes tail c (flush_from tail answers c)
unfolding flush_from
flush_from-Flushes tail [] c v o = ends tail c blocked [] [] v (λ n h. cc)
flush_from-Flushes tail (sent n ∷ answers) c v (inl e) =
    unless_empty tail c (sent n ∷ answers) _ v (λ h. absurd (omega (arith, e)))
flush_from-Flushes tail (sent n ∷ answers) c v (inr (one, most, o)) =
    let f = flush_from tail answers (after_send c n) in
    unless_empty tail c (sent n ∷ answers) (and_later c n f) v λ h.
      let s = send-IsStep c n v h one most in
      later-Flushes tail c n f s (flush_from-Flushes tail answers (after_send c n) s.valid o)
flush_from-Flushes tail (not_sent eintr ∷ answers) c v o =
    unless_empty tail c (not_sent eintr ∷ answers) (flush_from tail answers c) v
      (λ _. flush_from-Flushes tail answers c v o)
flush_from-Flushes tail (not_sent e ∷ answers) c v o =
    ends tail c (error e) (not_sent e ∷ answers) answers v (λ n h. cc)

-- Where sendmsg takes at least one byte of what it is offered each time, a flush of sound queues
-- sends the oldest bytes and the oldest descriptors in order and keeps the others, whatever the
-- calls answer; each descriptor that is sent is closed, once, and no other is; what comes in is not
-- touched.
pub flush-Kept :
    (c : Connection) (answers : List Sent)
    → IsSender c
    → Obeys answers c
    → Kept c (connection_flush c answers)
unfolding connection_flush
flush-Kept c answers v o = by_want c.want_flush
  where
    by_want :
        (b : Bool)
        → Kept c (if b then flush_from c.out.tail answers c else stop c (flushed 0) answers)
    by_want true = (flush_from-Flushes c.out.tail answers c v o).0
    by_want false = stop-Kept c (flushed 0) answers v

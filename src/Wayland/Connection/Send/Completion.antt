-- ===== src/Wayland/Connection/Send/Completion.antt =====
-- wl_connection_flush of packages/wayland/build/src/connection.c sends everything, if the socket does not
-- refuse.
use k1os.Prelude.{
  ℕ, suc, ◌*◌, ◌≤◌, ◌<◌, ◌≡◌, inl, inr, refl, ap, ◌∙◌, Bool, true, false, List, [], ◌∷◌, arith,
  ◌==◌, if◌then◌else◌, ==_ne, ==_eq, ℕ_discrete,
}
use k1os.Wayland.Word.{int_word}
use k1os.Wayland.IdMap.{eintr}
use k1os.Wayland.Ring.{ring_size}
use k1os.Wayland.Connection.{Connection}
use k1os.Wayland.Connection.Send.{
  Sent, sent, not_sent, flushed, Flush, after_send, and_later, finish, flush_from, connection_flush,
  stop,
}
use k1os.Wayland.Connection.Send.Flushing.{IsSender, Obeys, flush_from-Flushes, send-IsStep}

-- No call fails, but for interruptions.
abbrev pub NoFailure : List Sent → Type 0
NoFailure [] = Unit
NoFailure (sent n ∷ answers) = NoFailure answers
NoFailure (not_sent e ∷ answers) = (e ≡ eintr) × NoFailure answers

unfoldable pub sends : List Sent → ℕ
sends [] = 0
sends (sent n ∷ answers) = suc (sends answers)
sends (not_sent e ∷ answers) = sends answers

abbrev Ends : Flush → Type 0
Ends f = (n : ℕ) × (f.outcome ≡ flushed n)

Ends-unless_empty :
    (tail : ℕ) (c : Connection) (answers : List Sent) (f : Flush)
    → (0 < ring_size c.out → Ends f)
    → Ends (if ring_size c.out == 0 then finish tail c answers else f)
Ends-unless_empty tail c answers f h = elim (ℕ_discrete (ring_size c.out) 0) [
  | yes e ↦ rw (==_eq (ring_size c.out) 0 e) (_, refl)
  | no ne ↦ rw (==_ne (ring_size c.out) 0 ne) (h (omega arith))
]

flush_from-Ends :
    (tail : ℕ) (answers : List Sent) (c : Connection)
    → IsSender c
    → Obeys answers c
    → NoFailure answers
    → ring_size c.out ≤ sends answers
    → Ends (flush_from tail answers c)
unfolding flush_from sends
flush_from-Ends tail [] c v o q h = Ends-unless_empty tail c [] _ (λ p. absurd (omega arith))
flush_from-Ends tail (sent n ∷ answers) c v (inl e) q h =
    Ends-unless_empty tail c (sent n ∷ answers) _ (λ p. absurd (omega arith))
flush_from-Ends tail (sent n ∷ answers) c v (inr (one, most, o)) q h =
    let f = flush_from tail answers (after_send c n) in
    Ends-unless_empty tail c (sent n ∷ answers) (and_later c n f) λ p.
      let s = send-IsStep c n v p one most in
      flush_from-Ends tail answers (after_send c n) s.valid o q (omega (arith, s.shrinks))
flush_from-Ends tail (not_sent eintr ∷ answers) c v o (e, q) h =
    Ends-unless_empty tail c (not_sent eintr ∷ answers) (flush_from tail answers c)
      (λ p. flush_from-Ends tail answers c v o q h)
flush_from-Ends tail (not_sent e' ∷ answers) c v o (e, q) h = cc

pub record Completed (c : Connection) (f : Flush) : Type 0 where
  pub outcome_lem : f.outcome ≡ flushed (int_word (ring_size c.out))
  pub out_lem : ring_size f.connection.out ≡ 0
  pub fds_lem : ring_size f.connection.fds_out ≡ 0
  pub want_lem : f.connection.want_flush ≡ false

-- A flush that is wanted, of sound queues with a byte for each 28 descriptors at least, sends every
-- byte and every descriptor, returns the number of the bytes, as far as an int of 32 bits holds it,
-- and wants no flush any more, where no
-- call of sendmsg fails but by an interruption, each takes at least one byte of what it is offered,
-- and as many calls as there are bytes are answered.
pub flush_completes :
    (c : Connection) (answers : List Sent)
    → IsSender c
    → Obeys answers c
    → c.want_flush ≡ true
    → ring_size c.fds_out ≤ 28 * 4 * ring_size c.out
    → NoFailure answers
    → ring_size c.out ≤ sends answers
    → Completed c (connection_flush c answers)
unfolding connection_flush
flush_completes c answers v o want enough q h =
    let (n, e) = flush_from-Ends c.out.tail answers c v o q h in
    let d = (flush_from-Flushes c.out.tail answers c v o).1 n e in
    by_want c.want_flush want (record {
      outcome_lem = e ∙ ap flushed d.count_lem;
      out_lem = d.out_lem;
      fds_lem = d.fds_first enough;
      want_lem = d.want_lem;
    })
  where
    by_want :
        (b : Bool)
        → b ≡ true
        → Completed c (flush_from c.out.tail answers c)
        → Completed c (if b then flush_from c.out.tail answers c else stop c (flushed 0) answers)
    by_want true e d = d
    by_want false e d = cc

-- ===== src/Wayland/Connection/Receive/Gathering.antt =====
-- What one call of recvmsg adds to a read, in wl_connection_read of
-- packages/wayland/build/src/connection.c.
use mathlib.Core.List.{append_assoc, append-nil}
use k1os.Prelude.{
  ℕ, ◌≤◌, ◌≡◌, ◌⊎◌, inl, inr, refl, sym, ap, ap₂, ◌∙◌, Bool, false, List, [], ◌∷◌, ◌++◌, arith,
  length, Bool-cases,
}
use k1os.Wayland.Word.{words, words_nil}
use k1os.Wayland.IdMap.{eoverflow}
use k1os.Wayland.Ring.{ring_put_iov}
use k1os.Wayland.Ring.Contents.{IsRing, contents}
use k1os.Wayland.Connection.{Connection}
use k1os.Wayland.Connection.Send.Queue.{Allows}
use k1os.Wayland.IdMap.{eintr, eagain}
use k1os.Wayland.Connection.Receive.{
  data_size, got, blocked, Control, Answer, received, end_of_file, not_received, Decoded,
  decode_cmsg, Prepared, reads, ends, prepare, filled, advanced, Outcome, error, Read, give,
  after_closing, read_from,
}
use k1os.Wayland.Connection.Receive.Decoding.{rights_of, WholeFds, Shared}
use k1os.Wayland.Connection.Receive.Filling.{
  in_block-IsRing, behind-IsRing, IsReader, PreparedWell, ready_to_read, over, prepare-PreparedWell,
}
use k1os.Wayland.Connection.Receive.Scatter.{room}

-- The bytes and the descriptors of answers.
unfoldable pub bytes_of : List Answer → List ℕ
bytes_of [] = []
bytes_of (received bytes msgs ∷ answers) = bytes ++ bytes_of answers
bytes_of (a ∷ answers) = bytes_of answers

unfoldable pub fds_of : List Answer → List ℕ
fds_of [] = []
fds_of (received bytes msgs ∷ answers) = rights_of msgs ++ fds_of answers
fds_of (a ∷ answers) = fds_of answers

-- How a call of recvmsg that is the last one ends the read.
abbrev pub EndsWith : Answer → Read → Type 0
EndsWith (received bytes msgs) r = r.outcome ≡ error eoverflow
EndsWith end_of_file r = r.outcome ≡ got (data_size r.connection)
EndsWith (not_received eintr) r = ⊥
EndsWith (not_received eagain) r =
    (r.outcome ≡ got (data_size r.connection)) ⊎ (r.outcome ≡ error eagain)
EndsWith (not_received e) r = r.outcome ≡ error e

-- Why a read ends: by its last call, or since a call gets no answer, or since no round can start.
pub data Stopped (can_alloc : ℕ → Bool) (r : Read) : List Answer → Type 0 where
  by_call : {a : Answer} → EndsWith a r → Stopped can_alloc r (a ∷ [])
  no_answer : r.outcome ≡ blocked → r.answers ≡ [] → Stopped can_alloc r []
  no_start : prepare can_alloc r.connection ≡ ends r.outcome → Stopped can_alloc r []

-- What a read takes in: `used` are the calls whose bytes count, `last` is the call that ends the
-- read, if one does.
pub record Gathered (can_alloc : ℕ → Bool) (c : Connection) (answers : List Answer) (r : Read)
    : Type 0 where
  pub input_valid : IsRing r.connection.input
  pub fds_valid : IsRing r.connection.fds_in
  pub used : List Answer
  pub last : List Answer
  pub stopped : Stopped can_alloc r last
  pub consumed : answers ≡ used ++ (last ++ r.answers)
  pub bytes_lem : contents r.connection.input ≡ contents c.input ++ bytes_of used
  pub lost : (r.outcome ≡ error eoverflow) ⊎ (bytes_of last ≡ [])
  pub kept : List ℕ
  pub dropped : List ℕ
  pub whole : fds_of used ++ fds_of last ≡ kept ++ dropped
  pub fds_lem : contents r.connection.fds_in ≡ contents c.fds_in ++ kept
  pub closed_lem : r.closed ≡ words dropped
  pub none_closed : (r.outcome ≡ error eoverflow) ⊎ (dropped ≡ [])

-- A read that ends with no more bytes.
pub give-Gathered :
    (can_alloc : ℕ → Bool) (c : Connection) (o : Outcome) (last answers : List Answer)
    → IsRing c.input
    → IsRing c.fds_in
    → Stopped can_alloc (give c o answers) last
    → bytes_of last ≡ []
    → fds_of last ≡ []
    → Gathered can_alloc c (last ++ answers) (give c o answers)
unfolding bytes_of fds_of
give-Gathered can_alloc c o last answers v w why no_bytes no_fds = record {
  input_valid = v;
  fds_valid = w;
  used = [];
  last = last;
  stopped = why;
  consumed = refl;
  bytes_lem = sym (append-nil (contents c.input));
  lost = inr no_bytes;
  kept = [];
  dropped = [];
  whole = no_fds;
  fds_lem = sym (append-nil (contents c.fds_in));
  closed_lem = sym words_nil;
  none_closed = inr refl;
}

-- What holds of the connection that the next round reads into, if there is one.
abbrev pub Continues : (Connection → Type 0) → Prepared → Type 0
Continues P (reads c) = P c
Continues P (ends o) = Unit

-- What recvmsg does: a call that gives bytes gives at least one, and no more than the parts hold; its
-- descriptors are whole, and there are fewer than 2 ^ 62 bytes in a queue.
module _ (can_alloc : ℕ → Bool) where
  -- The connection after a call.
  abbrev pub after_call : Connection → List ℕ → List Control → Connection
  after_call c bytes msgs =
      advanced
        (record (filled c bytes) { fds_in = (decode_cmsg can_alloc msgs c.fds_in false).fds_in })
        (length bytes)

  abbrev pub Obeys : List Answer → Connection → Type 0
  Obeys [] c = Unit
  Obeys (end_of_file ∷ answers) c = Unit
  Obeys (not_received e ∷ answers) c = Obeys answers c
  Obeys (received bytes msgs ∷ answers) c =
      (1 ≤ length bytes)
      × (length bytes ≤ room (ring_put_iov c.input))
      × WholeFds msgs
      × Allows c.fds_in (length (rights_of msgs))
      × Allows (after_call c bytes msgs).input 1
      × Continues (Obeys answers) (prepare can_alloc (after_call c bytes msgs))

  EndsWith-after_closing :
      (a : Answer) (closed : List ℕ) (r : Read) → EndsWith a r → EndsWith a (after_closing closed r)
  EndsWith-after_closing (received bytes msgs) closed r e = e
  EndsWith-after_closing end_of_file closed r e = e
  EndsWith-after_closing (not_received eintr) closed r e = e
  EndsWith-after_closing (not_received eagain) closed r e = e
  EndsWith-after_closing (not_received e') closed r e = e

  -- What is closed before does not matter.
  after_closing-Stopped :
      (closed : List ℕ) {r : Read} {last : List Answer}
      → Stopped can_alloc r last
      → Stopped can_alloc (after_closing closed r) last
  after_closing-Stopped closed (by_call {a = a} e) =
      by_call {a = a} (EndsWith-after_closing a closed _ e)
  after_closing-Stopped closed (no_answer o e) = no_answer o e
  after_closing-Stopped closed (no_start e) = no_start e

  -- A call that gives bytes and control messages.
  module _ (c : Connection) (bytes : List ℕ) (msgs : List Control) (answers : List Answer)
      (v : IsReader c) (one : 1 ≤ length bytes) (most : length bytes ≤ room (ring_put_iov c.input))
      (s : Shared c.fds_in false msgs (decode_cmsg can_alloc msgs c.fds_in false)) where
    abbrev decoded : Decoded
    decoded = decode_cmsg can_alloc msgs c.fds_in false

    abbrev start : Connection
    start = record (filled c bytes) { fds_in = decoded.fds_in }

    overflow-Gathered :
        Gathered can_alloc c
          (received bytes msgs ∷ answers)
          (after_closing decoded.closed (give start (error eoverflow) answers))
    unfolding bytes_of fds_of
    overflow-Gathered =
        let b = in_block-IsRing c.input bytes v.input_valid v.space one most in
        record {
          input_valid = b.1;
          fds_valid = s.valid;
          used = [];
          last = received bytes msgs ∷ [];
          stopped = by_call refl;
          consumed = refl;
          bytes_lem = b.0 ∙ sym (append-nil (contents c.input));
          lost = inl refl;
          kept = s.kept;
          dropped = s.dropped;
          whole = append-nil (rights_of msgs) ∙ s.whole;
          fds_lem = s.fds_lem;
          closed_lem = append-nil decoded.closed ∙ s.closed_lem;
          none_closed = inl refl;
        }

    more-Gathered :
        (c' : Connection) (r : Read)
        → decoded.overflow ≡ false
        → contents c'.input ≡ contents (after_call c bytes msgs).input
        → c'.fds_in ≡ decoded.fds_in
        → Gathered can_alloc c' answers r
        → Gathered can_alloc c (received bytes msgs ∷ answers) (after_closing decoded.closed r)
    unfolding bytes_of fds_of
    more-Gathered c' r fine same_bytes same_fds g =
        let b = behind-IsRing c.input bytes v.input_valid v.space one most in
        let none_dropped : s.dropped ≡ [] = elim s.no_overflow [
          | inl overflowed ↦ cc
          | inr e ↦ e
        ] in
        let all_kept : rights_of msgs ≡ s.kept =
          s.whole ∙ ap (◌++◌ (s.kept)) none_dropped ∙ append-nil s.kept in
        record {
          input_valid = g.input_valid;
          fds_valid = g.fds_valid;
          used = received bytes msgs ∷ g.used;
          last = g.last;
          stopped = after_closing-Stopped decoded.closed g.stopped;
          consumed = ap (◌∷◌ (received bytes msgs)) g.consumed;
          bytes_lem =
              g.bytes_lem
              ∙ ap (λ (xs : List ℕ). xs ++ bytes_of g.used) (same_bytes ∙ b.0)
              ∙ append_assoc (contents c.input) bytes (bytes_of g.used);
          lost = g.lost;
          kept = s.kept ++ g.kept;
          dropped = g.dropped;
          whole =
              append_assoc (rights_of msgs) (fds_of g.used) (fds_of g.last)
              ∙ ap₂ ◌++◌ all_kept g.whole
              ∙ sym (append_assoc s.kept g.kept g.dropped);
          fds_lem =
              g.fds_lem
              ∙ ap (λ (xs : List ℕ). xs ++ g.kept) (ap contents same_fds ∙ s.fds_lem)
              ∙ append_assoc (contents c.fds_in) s.kept g.kept;
          closed_lem = ap₂ ◌++◌ (s.closed_lem ∙ ap words none_dropped ∙ words_nil) g.closed_lem;
          none_closed = g.none_closed;
        }

    -- The next round, where the rest of the loop is known.
    next-Gathered :
        ((c' : Connection)
          → IsReader c'
          → Obeys answers c'
          → Gathered can_alloc c' answers (read_from can_alloc answers c'))
        → decoded.overflow ≡ false
        → (p : Prepared) → prepare can_alloc (after_call c bytes msgs) ≡ p
        → PreparedWell can_alloc (after_call c bytes msgs) p
        → Continues (Obeys answers) p
        → Gathered can_alloc c (received bytes msgs ∷ answers) (
            after_closing decoded.closed (elim p [
              | reads c' ↦ read_from can_alloc answers c'
              | ends o ↦ give (after_call c bytes msgs) o answers
            ]))
    next-Gathered ih fine (reads c') same_start (ready_to_read w same space limit) o =
        more-Gathered c' _ fine same refl (
          ih c'
            (record {
              input_valid = w;
              space = space;
              limit = omega (arith, limit, v.limit);
              fds_valid = s.valid;
            })
            o)
    next-Gathered ih fine (ends e) same_start over o =
        more-Gathered (after_call c bytes msgs) _ fine refl refl (
          give-Gathered can_alloc (after_call c bytes msgs) e [] answers
            (behind-IsRing c.input bytes v.input_valid v.space one most).1 s.valid
            (no_start same_start) (unfold bytes_of in refl) (unfold fds_of in refl))

    pub call-Gathered :
        ((c' : Connection)
          → IsReader c'
          → Obeys answers c'
          → Gathered can_alloc c' answers (read_from can_alloc answers c'))
        → Allows (after_call c bytes msgs).input 1
        → Continues (Obeys answers) (prepare can_alloc (after_call c bytes msgs))
        → Gathered can_alloc c
            (received bytes msgs ∷ answers)
            (read_from can_alloc (received bytes msgs ∷ answers) c)
    unfolding read_from
    call-Gathered ih allowed o = elim (Bool-cases decoded.overflow) [
      | inl e ↦ rw e overflow-Gathered
      | inr e ↦ rw e (
          next-Gathered ih e _ refl
            (prepare-PreparedWell can_alloc (after_call c bytes msgs)
              (behind-IsRing c.input bytes v.input_valid v.space one most).1 allowed)
            o)
    ]

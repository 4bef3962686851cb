-- ===== src/Wayland/Connection/Receive/Decoding.antt =====
-- What decode_cmsg of packages/wayland/build/src/connection.c does with the descriptors it gets.
use mathlib.Core.List.{append_assoc, append-nil}
use k1os.Prelude.{
  ℕ, ◌+◌, ◌%◌, ◌≤◌, ◌≡◌, ◌⊎◌, inl, inr, refl, sym, ap, ap₂, ◌∙◌, Bool, true, false, List, [], ◌∷◌,
  ◌++◌, arith, length, length-append,
}
use k1os.Wayland.Word.{words, words-append, words_nil}
use k1os.Wayland.Ring.{
  Ring, Ensured, ready, too_big, no_memory, ring_size, ring_put, ring_ensure_space,
}
use k1os.Wayland.Ring.Contents.{IsRing, contents, length-contents, ring_put_lem}
use k1os.Wayland.Ring.Space.{Answered, given, over_limit, out_of_memory, ring_ensure_space_lem}
use k1os.Wayland.Connection.Send.Queue.{Allows}
use k1os.Wayland.Connection.Receive.{Control, rights, unrelated, Decoded, take_rights, decode_cmsg}

-- The descriptors that control messages pass.
unfoldable pub rights_of : List Control → List ℕ
rights_of [] = []
rights_of (rights bytes ∷ msgs) = bytes ++ rights_of msgs
rights_of (unrelated ∷ msgs) = rights_of msgs

abbrev pub WholeFds : List Control → Type 0
WholeFds [] = Unit
WholeFds (rights bytes ∷ msgs) = (length bytes % 4 ≡ 0) × WholeFds msgs
WholeFds (unrelated ∷ msgs) = WholeFds msgs

-- Each descriptor is queued or closed: those that are queued are the first ones, and none is closed
-- unless a queue overflows.
pub record Shared (fds : Ring) (overflow : Bool) (msgs : List Control) (d : Decoded) : Type 0 where
  pub valid : IsRing d.fds_in
  pub limit_lem : d.fds_in.max_size_bits ≡ fds.max_size_bits
  pub kept : List ℕ
  pub dropped : List ℕ
  pub whole : rights_of msgs ≡ kept ++ dropped
  pub fds_lem : contents d.fds_in ≡ contents fds ++ kept
  pub closed_lem : d.closed ≡ words dropped
  pub aligned : length dropped % 4 ≡ 0
  pub no_overflow : (d.overflow ≡ true) ⊎ (dropped ≡ [])
  pub stays : overflow ≡ true → (kept ≡ []) × (d.overflow ≡ true)

ring_put-limit : (b : Ring) (bytes : List ℕ) → (ring_put b bytes).max_size_bits ≡ b.max_size_bits
unfolding ring_put
ring_put-limit b bytes = ground arith

-- What the rest of the messages adds.
join-Shared :
    (fds : Ring) (o : Bool) (bytes : List ℕ) (msgs : List Control) (d e : Decoded)
    → Shared fds o (rights bytes ∷ []) d
    → Shared d.fds_in d.overflow msgs e
    → Shared fds o (rights bytes ∷ msgs) (record e { closed = d.closed ++ e.closed })
unfolding rights_of
join-Shared fds o bytes msgs d e s t = elim s.no_overflow [
  | inr none_dropped ↦ record {
    valid = t.valid;
    limit_lem = t.limit_lem ∙ s.limit_lem;
    kept = s.kept ++ t.kept;
    dropped = t.dropped;
    whole = ap₂ ◌++◌ (first none_dropped) t.whole ∙ sym (append_assoc s.kept t.kept t.dropped);
    fds_lem =
        t.fds_lem
        ∙ ap (λ (xs : List ℕ). xs ++ t.kept) s.fds_lem
        ∙ append_assoc (contents fds) s.kept t.kept;
    closed_lem = ap₂ ◌++◌ (s.closed_lem ∙ ap words none_dropped ∙ words_nil) t.closed_lem;
    aligned = t.aligned;
    no_overflow = t.no_overflow;
    stays = λ h. (ap₂ ◌++◌ (s.stays h).0 (t.stays (s.stays h).1).0, (t.stays (s.stays h).1).1);
  }
  | inl over ↦
      let (none_kept, still) = t.stays over in
      record {
        valid = t.valid;
        limit_lem = t.limit_lem ∙ s.limit_lem;
        kept = s.kept;
        dropped = s.dropped ++ t.dropped;
        whole =
            ap₂ ◌++◌ (sym (append-nil bytes) ∙ s.whole)
              (t.whole ∙ ap (λ (xs : List ℕ). xs ++ t.dropped) none_kept)
            ∙ append_assoc s.kept s.dropped t.dropped;
        fds_lem =
            t.fds_lem
            ∙ ap (◌++◌ (contents d.fds_in)) none_kept
            ∙ append-nil (contents d.fds_in)
            ∙ s.fds_lem;
        closed_lem =
            ap₂ ◌++◌ s.closed_lem t.closed_lem ∙ sym (words-append s.dropped t.dropped s.aligned);
        aligned = omega (arith, length-append s.dropped t.dropped, s.aligned, t.aligned);
        no_overflow = inl still;
        stays = λ h. ((s.stays h).0, still);
      }
]
  where
    first : s.dropped ≡ [] → bytes ≡ s.kept
    first h = sym (append-nil bytes) ∙ s.whole ∙ ap (◌++◌ (s.kept)) h ∙ append-nil s.kept

module _ (can_alloc : ℕ → Bool) where
  take_rights-Shared :
      (bytes : List ℕ) (fds : Ring) (overflow : Bool)
      → IsRing fds
      → Allows fds (length bytes)
      → length bytes % 4 ≡ 0
      → Shared fds overflow (rights bytes ∷ []) (take_rights can_alloc bytes fds overflow)
  unfolding take_rights rights_of words
  take_rights-Shared bytes fds overflow v a h =
      by_answer (ring_ensure_space can_alloc fds (length bytes)) overflow
        (ring_ensure_space_lem can_alloc fds (length bytes) v a.0 a.1)
    where
      closing :
          (b : Ring) (o : Bool)
          → IsRing b
          → contents b ≡ contents fds
          → b.max_size_bits ≡ fds.max_size_bits
          → Shared fds o
              (rights bytes ∷ [])
              (record { fds_in = b; overflow = true; closed = words bytes })
      closing b o w same limit = record {
        valid = w;
        limit_lem = limit;
        kept = [];
        dropped = bytes;
        whole = append-nil bytes;
        fds_lem = same ∙ sym (append-nil (contents fds));
        closed_lem = refl;
        aligned = h;
        no_overflow = inl refl;
        stays = λ e. (refl, refl);
      }

      by_answer :
          (e : Ensured) (o : Bool)
          → Answered can_alloc fds (length bytes) e
          → Shared fds o (rights bytes ∷ []) (elim e [
            | ready b ↦ elim o [
              | true ↦ record { fds_in = b; overflow = true; closed = words bytes }
              | false ↦ record { fds_in = ring_put b bytes; overflow = false; closed = [] }
            ]
            | too_big ↦ record { fds_in = fds; overflow = true; closed = words bytes }
            | no_memory ↦ record { fds_in = fds; overflow = true; closed = words bytes }
          ])
      by_answer (ready b) true (given w same space limit) = closing b true w same limit
      by_answer (ready b) false (given w same space limit) =
          let p = ring_put_lem b bytes w space in
          record {
            valid = p.1;
            limit_lem = ring_put-limit b bytes ∙ limit;
            kept = bytes;
            dropped = [];
            whole = refl;
            fds_lem = p.0 ∙ ap (λ (xs : List ℕ). xs ++ bytes) same;
            closed_lem = refl;
            aligned = omega arith;
            no_overflow = inr refl;
            stays = λ e. cc;
          }
      by_answer too_big o (over_limit l m) = closing fds o v refl refl
      by_answer no_memory o (out_of_memory m) = closing fds o v refl refl

  -- decode_cmsg queues the descriptors of the control messages, from the first on, until the queue
  -- overflows, and closes the others, each once; the descriptors that were queued stay in front. It
  -- closes none where it reports no overflow.
  pub decode_cmsg-Shared :
      (msgs : List Control) (fds : Ring) (o : Bool)
      → IsRing fds
      → Allows fds (length (rights_of msgs))
      → WholeFds msgs
      → Shared fds o msgs (decode_cmsg can_alloc msgs fds o)
  unfolding decode_cmsg rights_of
  decode_cmsg-Shared [] fds o v a w = record {
    valid = v;
    limit_lem = refl;
    kept = [];
    dropped = [];
    whole = refl;
    fds_lem = sym (append-nil (contents fds));
    closed_lem = sym words_nil;
    aligned = omega arith;
    no_overflow = inr refl;
    stays = λ h. (refl, h);
  }
  decode_cmsg-Shared (unrelated ∷ msgs) fds o v a w =
      let s = decode_cmsg-Shared msgs fds o v a w in
      record {
        valid = s.valid;
        limit_lem = s.limit_lem;
        kept = s.kept;
        dropped = s.dropped;
        whole = s.whole;
        fds_lem = s.fds_lem;
        closed_lem = s.closed_lem;
        aligned = s.aligned;
        no_overflow = s.no_overflow;
        stays = s.stays;
      }
  decode_cmsg-Shared (rights bytes ∷ msgs) fds o v a w =
      let d = take_rights can_alloc bytes fds o in
      let total = length-append bytes (rights_of msgs) in
      let s = take_rights-Shared bytes fds o v (omega (arith, a, total)) w.0 in
      let size : ring_size d.fds_in ≤ ring_size fds + length bytes = omega (
        arith,
        ap length s.fds_lem,
        length-append (contents fds) s.kept,
        length-contents fds,
        length-contents d.fds_in,
        ap length s.whole,
        length-append s.kept s.dropped,
        ap length (append-nil bytes),
      ) in
      join-Shared fds o bytes msgs d (decode_cmsg can_alloc msgs d.fds_in d.overflow) s (
        decode_cmsg-Shared msgs d.fds_in d.overflow s.valid
          (omega (arith, a, total, s.limit_lem), omega (arith, a, total, size)) w.1)

-- ===== src/Wayland/Closure/Messages.antt =====
-- Whole messages from serialize_closure to wl_connection_demarshal.
use k1os.Prelude.{
  ℕ, ◌^◌, ◌<◌, ◌≡◌, refl, ap, ◌∙◌, Bool, Option, none, some, ◌>>=◌, List, [], ◌∷◌, ◌++◌, arith,
  length, map, length-append, Succeeds, succeeds, Succeeds-bind,
}
use mathlib.Core.List.{append_assoc}
use k1os.Wayland.Ring.{Ring}
use k1os.Wayland.Ring.Contents.{IsRing, contents, ring_consume_lem}
use k1os.Wayland.IdMap.{IdMap}
use k1os.Wayland.Signature.{ArgType, fd, ArgumentDetails}
use k1os.Wayland.Closure.{Argument, descriptor, Object}
use k1os.Wayland.Closure.Serialize.{Written, wrote, overflow, put_argument, put_arguments}
use k1os.Wayland.Closure.Demarshal.{read_arguments, Progress}
use k1os.Wayland.Closure.RoundTrip.{
  Fits, received, fd_bytes, reader, detail, fds_after, Reserves, fds_left, holds_four,
}
use k1os.Wayland.Closure.OneArgument.{argument_lem, IsPart, put_argument-IsPart}

module _ (can_alloc : ℕ → Bool) (fresh : ℕ) (memory : ℕ → Object) where
  -- Arguments that fit the types of a message, with the bytes of their descriptors; and that
  -- reserve the ids of new objects in the map `m`, which gives `m'`.
  pub data Sendable : List ArgumentDetails → List Argument → List ℕ → IdMap → IdMap → Type 0 where
    end : {m : IdMap} → Sendable [] [] [] m m
    argument :
        {ds : List ArgumentDetails} {args : List Argument} {fds : List ℕ} {m m₁ m' : IdMap}
        (t : ArgType) (nullable : Bool) (a : Argument)
        → Fits memory t nullable a
        → Reserves can_alloc fresh t a m m₁
        → Sendable ds args fds m₁ m'
        → Sendable (detail t nullable ∷ ds) (a ∷ args) (fd_bytes t a ++ fds) m m'

  fds_after_lem :
      (t : ArgType) (nullable : Bool) (a : Argument) (f : Ring) (more : List ℕ)
      → Fits memory t nullable a
      → IsRing f
      → contents f ≡ fd_bytes t a ++ more
      → IsRing (fds_after t f) × (contents (fds_after t f) ≡ more)
  fds_after_lem fd nullable (descriptor h) f more w v held =
      ((ring_consume_lem f 4 v (holds_four h more f v w held)).1, fds_left h more f v w held)
  fds_after_lem fd nullable a f more w v held = absurd w
  fds_after_lem t nullable a f more w v held = (v, held)

  -- What the loop of the receiver comes to.
  pub record Received (args : List Argument) (rest more : List ℕ) (m' : IdMap) (p : Progress)
      : Type 0 where
    pub args_lem : p.args ≡ map (received memory) args
    pub no_error : p.error ≡ none
    pub rest_lem : p.reader.rest ≡ rest
    pub objects_lem : p.reader.objects ≡ m'
    pub valid : IsRing p.reader.fds_in
    pub fds : contents p.reader.fds_in ≡ more

  -- What put_arguments comes to, where it succeeds.
  record Parts (d : ArgumentDetails) (ds : List ArgumentDetails) (a : Argument)
      (args : List Argument) (left out left' : List ℕ) : Type 0 where
    first : List ℕ
    between : List ℕ
    others : List ℕ
    is_first :
        (elim d.type [ some t ↦ put_argument memory t a left | none ↦ none ])
        ≡ some (wrote first between)
    is_others : put_arguments memory ds args between ≡ some (wrote others left')
    joined : out ≡ first ++ others

  put_arguments-wrote :
      (d : ArgumentDetails) (ds : List ArgumentDetails) (a : Argument) (args : List Argument)
      (left out left' : List ℕ)
      → put_arguments memory (d ∷ ds) (a ∷ args) left ≡ some (wrote out left')
      → Parts d ds a args left out left'
  unfolding put_arguments
  put_arguments-wrote d ds a args left out left' h =
      by_one (elim d.type [ some t ↦ put_argument memory t a left | none ↦ none ]) refl h
    where
      by_others :
          (o l : List ℕ) (w : Option Written)
          → (elim d.type [ some t ↦ put_argument memory t a left | none ↦ none ]) ≡ some (wrote o l)
          → put_arguments memory ds args l ≡ w
          → (w >>= λ w'. elim w' [
            | overflow ↦ some overflow
            | wrote out' left'' ↦ some (wrote (o ++ out') left'')
          ])
            ≡ some (wrote out left')
          → Parts d ds a args left out left'
      by_others o l none e f k = cc
      by_others o l (some overflow) e f k = cc
      by_others o l (some (wrote o' l')) e f k =
          let last : l' ≡ left' = cc in
          record {
            first = o;
            between = l;
            others = o';
            is_first = e;
            is_others = f ∙ ap (λ x. some (wrote o' x)) last;
            joined = cc;
          }

      by_one :
          (w : Option Written)
          → (elim d.type [ some t ↦ put_argument memory t a left | none ↦ none ]) ≡ w
          → (w >>= λ w'. elim w' [
            | overflow ↦ some overflow
            | wrote o l ↦ put_arguments memory ds args l >>= λ w''. elim w'' [
              | overflow ↦ some overflow
              | wrote out' left'' ↦ some (wrote (o ++ out') left'')
            ]
          ])
            ≡ some (wrote out left')
          → Parts d ds a args left out left'
      by_one none e k = cc
      by_one (some overflow) e k = cc
      by_one (some (wrote o l)) e k = by_others o l (put_arguments memory ds args l) e refl k

  -- The loop of the receiver, on what the loop of the sender has written.
  pub arguments-Received :
      {ds : List ArgumentDetails} {args : List Argument} {fds : List ℕ} {m m' : IdMap}
      (left out left' rest more : List ℕ) (f : Ring)
      → Sendable ds args fds m m'
      → put_arguments memory ds args left ≡ some (wrote out left')
      → IsRing f
      → contents f ≡ fds ++ more
      → length (out ++ rest) < 2 ^ 32
      → Succeeds
          (Received args rest more m')
          (read_arguments can_alloc fresh ds (reader (out ++ rest) f m))
  unfolding put_arguments read_arguments
  arguments-Received {m = m} left out left' rest more f end h v held small =
      let nothing : out ≡ [] = cc in
      succeeds (record {
        args_lem = refl;
        no_error = refl;
        rest_lem = ap (λ (o : List ℕ). o ++ rest) nothing;
        objects_lem = refl;
        valid = v;
        fds = held;
      })
  arguments-Received {m = m} left out left' rest more f
        (argument {ds} {args} {fds} {m₁ = m₁} t nullable a fits reserves later) h v held small =
      let p = put_arguments-wrote (detail t nullable) ds a args left out left' h in
      let split : out ++ rest ≡ p.first ++ (p.others ++ rest) =
        ap (λ (o : List ℕ). o ++ rest) p.joined ∙ append_assoc p.first p.others rest in
      let small' : length (p.first ++ (p.others ++ rest)) < 2 ^ 32 =
        omega (arith, ap length split, small) in
      let small'' : length (p.others ++ rest) < 2 ^ 32 =
        omega (arith, length-append p.first (p.others ++ rest), small') in
      let held' : contents f ≡ fd_bytes t a ++ (fds ++ more) =
        held ∙ append_assoc (fd_bytes t a) fds more in
      let one =
        argument_lem can_alloc fresh memory (p.others ++ rest) f m t nullable a p.first left
          p.between (fds ++ more) m₁ p.is_first fits reserves v held' small' in
      let f' = fds_after_lem t nullable a f (fds ++ more) fits v held' in
      let ih =
        arguments-Received p.between p.others left' rest more (fds_after t f) later p.is_others f'.0
          f'.1 small'' in
      rw (split, one)
        (Succeeds-bind ih (λ q r. succeeds (record {
          args_lem = ap (◌∷◌ (received memory a)) r.args_lem;
          no_error = r.no_error;
          rest_lem = r.rest_lem;
          objects_lem = r.objects_lem;
          valid = r.valid;
          fds = r.fds;
        })))

  pub put_arguments-IsPart :
      {ds : List ArgumentDetails} {args : List Argument} {fds : List ℕ} {m m' : IdMap}
      (left out left' : List ℕ)
      → Sendable ds args fds m m'
      → put_arguments memory ds args left ≡ some (wrote out left')
      → IsPart out left left'
  unfolding put_arguments
  put_arguments-IsPart left out left' end h =
      let nothing : [] ≡ out = cc in
      let same : left ≡ left' = cc in omega (arith, ap length nothing, ap length same)
  put_arguments-IsPart left out left' (argument {ds} {args} t nullable a fits reserves later) h =
      let p = put_arguments-wrote (detail t nullable) ds a args left out left' h in
      let one = put_argument-IsPart memory t nullable a left p.first p.between fits p.is_first in
      let ih = put_arguments-IsPart p.between p.others left' later p.is_others in
      omega (arith, ap length p.joined, length-append p.first p.others, one, ih)

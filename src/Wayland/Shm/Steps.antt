-- ===== src/Wayland/Shm/Steps.antt =====
-- What the pools of shared memory of packages/wayland/build/src/wayland-shm.c keep.
use k1os.Prelude.{
  ℕ, ◌+◌, ◌-◌, ◌*◌, ◌≤◌, ◌<◌, ◌≡◌, ◌⊎◌, inl, inr, refl, sym, ap, ◌∙◌, Bool, true, false, Option,
  none, some, List, [], ◌∷◌, arith, ltb, ◌==◌, if◌then◌else◌, length, Bool-cases, ltb→lt, ltb→ge,
}
use k1os.Wayland.Shm.{
  mremap, Error, Event, post_error, Pool, Buffer, World, Outcome, lives, freed,
  shm_pool_finish_resize, release, shm_pool_unref, after_unref,
}

-- The buffer lies in the first `size` bytes.
abbrev pub Inside : ℕ → Buffer → Type 0
Inside size b = (b.width ≤ b.stride) × (b.offset + b.stride * b.height ≤ size)

abbrev pub AllInside : ℕ → List Buffer → Type 0
AllInside size [] = Unit
AllInside size (b ∷ bs) = Inside size b × AllInside size bs

abbrev pub bit : Bool → ℕ
bit true = 1
bit false = 0

-- The references of a pool are those that there are, its buffers lie in the mapping, and the mapping is
-- the one that the system has.
pub record Counted (w : World) : Type 0 where
  pub internal : w.pool.internal_refcount ≡ bit w.pool.resource + length w.buffers
  pub external : w.pool.external_refcount ≡ w.held
  pub sizes : w.pool.size ≤ w.pool.new_size
  pub inside : AllInside w.pool.size w.buffers
  pub mapped : w.pool.region ≡ (w.pool.mapping, w.pool.size)

-- A pool that is alive: something refers to it.
pub record IsWorld (w : World) : Type 0 where
  pub counted : Counted w
  pub used : 0 < w.pool.internal_refcount + w.pool.external_refcount

-- Who refers to a pool: the client, so many buffers, and so many references of the compositor.
pub record Holders : Type 0 where
  pub client : Bool
  pub buffers : ℕ
  pub held : ℕ

abbrev pub count : Holders → ℕ
count h = bit h.client + h.buffers + h.held

abbrev pub view : World → Holders
view w = record { client = w.pool.resource; buffers = length w.buffers; held = w.held }

-- Where the compositor keeps a reference, the mapping stays where it is.
abbrev pub Pinned : World → World → Type 0
Pinned w w' =
    (w.pool.external_refcount ≡ 0)
    ⊎ ((w'.pool.external_refcount ≡ 0)
        ⊎ ((w'.pool.mapping ≡ w.pool.mapping) × (w'.pool.size ≡ w.pool.size)))

-- What is left of `w` where `after` are the holders that there should be: the pool is freed where and
-- only where there are none, and no assertion fails.
pub data Stepped (w : World) (after : Holders) : Outcome → Type 0 where
  stays :
      {w' : World} {events : List Event}
      → IsWorld w'
      → Pinned w w'
      → view w' ≡ after
      → Stepped w after (lives w' events)
  last : {address size : ℕ} → count after ≡ 0 → Stepped w after (freed address size)

pub AllInside-mono : (n m : ℕ) (bs : List Buffer) → n ≤ m → AllInside n bs → AllInside m bs
AllInside-mono n m [] h v = tt
AllInside-mono n m (b ∷ bs) h ((wide, ends), rest) =
    ((wide, omega (arith, ends, h)), AllInside-mono n m bs h rest)

-- What shm_pool_finish_resize leaves as it is.
pub record Resized (p p' : Pool) : Type 0 where
  pub resource : p'.resource ≡ p.resource
  pub internal : p'.internal_refcount ≡ p.internal_refcount
  pub external : p'.external_refcount ≡ p.external_refcount
  pub grows : p.size ≤ p'.size
  pub sizes : p'.size ≤ p'.new_size
  pub mapped : p'.region ≡ (p'.mapping, p'.size)

pub finish_resize-Resized :
    (answer : Option ℕ) (p : Pool)
    → p.size ≤ p.new_size
    → p.region ≡ (p.mapping, p.size)
    → Resized p ((shm_pool_finish_resize answer p).0)
unfolding shm_pool_finish_resize mremap
finish_resize-Resized answer p h same = elim (Bool-cases (p.size == p.new_size)) [
  | inl e ↦ rw e (record {
    resource = refl;
    internal = refl;
    external = refl;
    grows = omega arith;
    sizes = h;
    mapped = same;
  })
  | inr e ↦ rw e (by_answer answer)
]
  where
    by_answer :
        (a : Option ℕ)
        → Resized p (
            let moved = mremap a p.new_size p.region in
            let p' = record p { region = moved.1 } in
            (elim moved.0 as (λ x. Pool × List Event) [
              | none ↦ (p', if p.resource then post_error Error.invalid_fd ∷ [] else [])
              | some address ↦ (record p' { mapping = address; size = p.new_size }, [])
            ]).0)
    by_answer none = record {
      resource = refl;
      internal = refl;
      external = refl;
      grows = omega arith;
      sizes = h;
      mapped = same;
    }
    by_answer (some address) = record {
      resource = refl;
      internal = refl;
      external = refl;
      grows = h;
      sizes = omega arith;
      mapped = refl;
    }

pub Resized-Counted :
    (w : World) (p p' : Pool)
    → Resized p p'
    → Counted (record w { pool = p })
    → Counted (record w { pool = p' })
Resized-Counted w p p' r c = record {
  internal = r.internal ∙ c.internal ∙ ap (λ (b : Bool). bit b + length w.buffers) (sym r.resource);
  external = r.external ∙ c.external;
  sizes = r.sizes;
  mapped = r.mapped;
  inside = AllInside-mono p.size p'.size w.buffers r.grows c.inside;
}

pub ==_pos : (n : ℕ) → 0 < n → (n == 0) ≡ false
==_pos n h = ground arith

pub ==_zero : (n : ℕ) → (n == 0) ≡ true → n ≡ 0
==_zero n h = ground arith

module _ (before : World) (after : Holders) where
  release-Stepped :
      (w : World) (p : Pool) (events : List Event)
      → Counted (record w { pool = p })
      → Pinned before (record w { pool = p })
      → view (record w { pool = p }) ≡ after
      → Stepped before after (after_unref w (release p events))
  unfolding release
  release-Stepped w p events c pinned same =
      elim (Bool-cases (ltb 0 (p.internal_refcount + p.external_refcount))) [
        | inl e ↦ rw e (stays (record { counted = c; used = ltb→lt 0 _ e }) pinned same)
        | inr e ↦ rw e (
            last (
              ap count (sym same)
              ∙ omega (
                arith,
                c.internal,
                c.external,
                ltb→ge 0 (p.internal_refcount + p.external_refcount) e,
              )))
      ]

  pub unref_internal-Stepped :
      (answer : Option ℕ) (w : World) (p : Pool)
      → 0 < p.internal_refcount
      → Counted (record w { pool = record p { internal_refcount = p.internal_refcount - 1 } })
      → Pinned before (record w { pool = p })
      → view (record w { pool = p }) ≡ after
      → Stepped before after (after_unref w (shm_pool_unref answer false p))
  unfolding shm_pool_unref
  unref_internal-Stepped answer w p h c pinned same =
      rw (==_pos p.internal_refcount h) (release-Stepped w _ [] c pinned same)

  pub unref_external-Stepped :
      (answer : Option ℕ) (w : World)
      → 0 < before.pool.external_refcount
      → Counted (record w {
        pool = record (before.pool) { external_refcount = before.pool.external_refcount - 1 };
      })
      → view (record w { pool = before.pool }) ≡ after
      → Stepped before after (after_unref w (shm_pool_unref answer true (before.pool)))
  unfolding shm_pool_unref
  unref_external-Stepped answer w h c same =
      rw (==_pos before.pool.external_refcount h)
        (elim (Bool-cases (before.pool.external_refcount - 1 == 0)) [
          | inl e ↦ rw e (
              let r =
                finish_resize-Resized answer
                  (record (before.pool) { external_refcount = before.pool.external_refcount - 1 })
                  c.sizes c.mapped in
              release-Stepped w _ _ (Resized-Counted w _ _ r c)
                (inr (inl (r.external ∙ ==_zero _ e)))
                (ap (λ (b : Bool). record { client = b; buffers = length w.buffers; held = w.held })
                    r.resource
                  ∙ same))
          | inr e ↦ rw e (release-Stepped w _ [] c (inr (inr (refl, refl))) same)
        ])

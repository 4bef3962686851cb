-- ===== src/Wayland/Shm/Changes.antt =====
-- What the requests to a pool, but for that of a buffer, leave of it, in packages/wayland/build/src/wayland-shm.c.
use k1os.Prelude.{
  ℕ, ◌+◌, ◌-◌, ◌<◌, ◌≡◌, ◌⊎◌, inl, inr, refl, ap, ◌∙◌, Bool, true, false, Option, none, List, [],
  ◌∷◌, arith, ltb, ◌==◌, length, Bool-cases, ltb→ge,
}
use k1os.Wayland.Shm.{
  ℤ, pos, negsuc, Event, Buffer, World, lives, without, destroy_buffer, destroy_pool,
  shm_pool_resize, shm_buffer_ref_pool, shm_pool_unref_external,
}
use k1os.Wayland.Shm.Steps.{
  AllInside, bit, Counted, IsWorld, view, Stepped, stays, finish_resize-Resized, Resized-Counted,
  unref_internal-Stepped, unref_external-Stepped, ==_pos, ==_zero,
}

-- A buffer with this resource is among them.
abbrev pub IsListed : ℕ → List Buffer → Type 0
IsListed id [] = ⊥
IsListed id (b ∷ bs) = (b.resource ≡ id) ⊎ IsListed id bs

length-without :
    (id : ℕ) (bs : List Buffer) → IsListed id bs → length (without id bs) + 1 ≡ length bs
unfolding without
length-without id [] listed = elim listed [ ]
length-without id (b ∷ bs) listed = elim (Bool-cases (b.resource == id)) [
  | inl e ↦ rw e (omega arith)
  | inr e ↦ rw e (elim listed [
    | inl same ↦ ground arith
    | inr later ↦ omega (arith, length-without id bs later)
  ])
]

without-AllInside : (n id : ℕ) (bs : List Buffer) → AllInside n bs → AllInside n (without id bs)
unfolding without
without-AllInside n id [] v = tt
without-AllInside n id (b ∷ bs) (fits, rest) = elim (Bool-cases (b.resource == id)) [
  | inl e ↦ rw e rest
  | inr e ↦ rw e (fits, without-AllInside n id bs rest)
]

pub destroy_buffer-Stepped :
    (w : World) (id : ℕ)
    → IsWorld w
    → IsListed id w.buffers
    → Stepped w (record (view w) { buffers = length w.buffers - 1 }) (destroy_buffer w id)
unfolding destroy_buffer
destroy_buffer-Stepped w id v a =
    let c = v.counted in
    let fewer = length-without id w.buffers a in
    unref_internal-Stepped w _ none (record w { buffers = without id w.buffers }) w.pool
      (omega (arith, c.internal, fewer))
      (record {
        internal = omega (arith, c.internal, fewer);
        external = c.external;
        sizes = c.sizes;
        mapped = c.mapped;
        inside = without-AllInside w.pool.size id w.buffers c.inside;
      })
      (inr (inr (refl, refl)))
      (ap (λ (n : ℕ). record (view w) { buffers = n }) (omega (arith, fewer)))

pub destroy_pool-Stepped :
    (w : World)
    → IsWorld w
    → w.pool.resource ≡ true
    → Stepped w (record (view w) { client = false }) (destroy_pool w)
unfolding destroy_pool
destroy_pool-Stepped w v a =
    let c = v.counted in
    let one = c.internal ∙ ap (λ (b : Bool). bit b + length w.buffers) a in
    unref_internal-Stepped w _ none w (record (w.pool) { resource = false }) (omega (arith, one))
      (record {
        internal = omega (arith, one);
        external = c.external;
        sizes = c.sizes;
        mapped = c.mapped;
        inside = c.inside;
      })
      (inr (inr (refl, refl))) refl

pub unref_external-Stepped_world :
    (w : World) (answer : Option ℕ)
    → IsWorld w
    → 0 < w.held
    → Stepped w (record (view w) { held = w.held - 1 }) (shm_pool_unref_external w answer)
unfolding shm_pool_unref_external
unref_external-Stepped_world w answer v a =
    let c = v.counted in
    unref_external-Stepped w _ answer (record w { held = w.held - 1 })
      (omega (arith, c.external, a))
      (record {
        internal = c.internal;
        external = ap (λ (n : ℕ). n - 1) c.external;
        sizes = c.sizes;
        mapped = c.mapped;
        inside = c.inside;
      })
      refl

pub ref_pool-Stepped :
    (w : World)
    → IsWorld w
    → Stepped w (record (view w) { held = w.held + 1 }) (shm_buffer_ref_pool w)
unfolding shm_buffer_ref_pool
ref_pool-Stepped w v =
    let c = v.counted in
    rw (==_pos _ v.used) (
      stays
        (record {
          counted = record {
            internal = c.internal;
            external = ap (λ (n : ℕ). n + 1) c.external;
            sizes = c.sizes;
            mapped = c.mapped;
            inside = c.inside;
          };
          used = omega arith;
        })
        (inr (inr (refl, refl))) refl)

pub same-Stepped :
    (w : World) (events : List Event) → IsWorld w → Stepped w (view w) (lives w events)
same-Stepped w events v = stays v (inr (inr (refl, refl))) refl

pub resize-Stepped :
    (w : World) (size : ℤ) (answer : Option ℕ)
    → IsWorld w
    → Stepped w (view w) (shm_pool_resize w size answer)
unfolding shm_pool_resize
resize-Stepped w (negsuc size) answer v = same-Stepped w _ v
resize-Stepped w (pos size) answer v =
    let c = v.counted in
    elim (Bool-cases (ltb size w.pool.size)) [
      | inl e ↦ rw e (same-Stepped w _ v)
      | inr e ↦ rw e (elim (Bool-cases (w.pool.external_refcount == 0)) [
        | inl z ↦ rw z (
            let least = ltb→ge size w.pool.size e in
            let r =
              finish_resize-Resized answer (record (w.pool) { new_size = size }) least c.mapped in
            let counted : Counted (record w { pool = record (w.pool) { new_size = size } }) =
              record {
                internal = c.internal;
                external = c.external;
                sizes = least;
                mapped = c.mapped;
                inside = c.inside;
              } in
            stays
              (record {
                counted = Resized-Counted w (record (w.pool) { new_size = size }) _ r counted;
                used = omega (arith, v.used, r.internal, r.external);
              })
              (inl (==_zero _ z)) (ap (λ (b : Bool). record (view w) { client = b }) r.resource))
        | inr z ↦ rw z (
            stays
              (record {
                counted = record {
                  internal = c.internal;
                  external = c.external;
                  sizes = ltb→ge size w.pool.size e;
                  mapped = c.mapped;
                  inside = c.inside;
                };
                used = v.used;
              })
              (inr (inr (refl, refl))) refl)
      ])
    ]

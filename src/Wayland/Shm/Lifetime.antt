-- ===== src/Wayland/Shm/Lifetime.antt =====
-- The life of a pool of shared memory, from shm_create_pool of packages/wayland/build/src/wayland-shm.c on,
-- through the requests of its client and the calls of the compositor.
use k1os.Prelude.{
  ℕ, suc, ◌+◌, ◌-◌, ◌*◌, ◌≤◌, ◌<◌, ◌≡◌, inl, inr, refl, Bool, true, false, ◌&&◌, Option, none, some,
  List, [], ◌∷◌, arith, if◌then◌else◌, length, Bool-cases,
}
use k1os.Wayland.Shm.{
  ℤ, pos, negsuc, Event, post_no_memory, World, Outcome, lives, after_unref, tell, shm_pool_unref,
  format_is_supported, is_valid_shape, natural, BufferRequest, buffer_of, shm_pool_create_buffer,
  destroy_buffer, destroy_pool, shm_pool_resize, shm_buffer_ref_pool, shm_pool_unref_external,
}
use k1os.Wayland.Shm.Bounds.{Fits, is_valid_shape_iff}
use k1os.Wayland.Shm.Steps.{IsWorld, Holders, view, Stepped, stays, last, unref_internal-Stepped}
use k1os.Wayland.Shm.Changes.{
  IsListed, destroy_buffer-Stepped, destroy_pool-Stepped, unref_external-Stepped_world,
  ref_pool-Stepped, same-Stepped, resize-Stepped,
}

pub data Request : Type 0 where
  create_buffer : BufferRequest → Request
  drop_buffer : ℕ → Request
  drop_pool : Request
  resize_pool : ℤ → Option ℕ → Request
  ref_pool : Request
  unref_pool : Option ℕ → Request

-- What the client and the compositor may ask for: what they name is theirs.
abbrev pub Allowed : World → Request → Type 0
Allowed w (create_buffer r) = w.pool.resource ≡ true
Allowed w (drop_buffer id) = IsListed id w.buffers
Allowed w drop_pool = w.pool.resource ≡ true
Allowed w (resize_pool size answer) = w.pool.resource ≡ true
Allowed w ref_pool = 0 < length w.buffers
Allowed w (unref_pool answer) = 0 < w.held

abbrev is_some : Option ℕ → Bool
is_some none = false
is_some (some id) = true

Fits-natural :
    (offset width height stride : ℤ) (size : ℕ)
    → Fits offset width height stride size
    → (natural width ≤ natural stride) × (natural offset + natural stride * natural height ≤ size)
Fits-natural (pos o) (pos w) (pos h) (pos s) size (_, _, wide, _, ends) = (wide, ends)
Fits-natural (negsuc _) _ _ _ size fits = elim fits [ ]
Fits-natural (pos _) (negsuc _) _ _ size fits = elim fits [ ]
Fits-natural (pos _) (pos _) (negsuc _) _ size fits = elim fits [ ]
Fits-natural (pos _) (pos _) (pos _) (negsuc _) size fits = elim fits [ ]

tell-Stepped :
    (w : World) (h : Holders) (e : Event) (o : Outcome) → Stepped w h o → Stepped w h (tell e o)
tell-Stepped w h e _ (stays v pinned same) = stays v pinned same
tell-Stepped w h e _ (last none_left) = last none_left

module _ (formats : List ℕ) where
  unfoldable pub step : World → Request → Outcome
  step w (create_buffer r) = shm_pool_create_buffer formats w r
  step w (drop_buffer id) = destroy_buffer w id
  step w drop_pool = destroy_pool w
  step w (resize_pool size answer) = shm_pool_resize w size answer
  step w ref_pool = shm_buffer_ref_pool w
  step w (unref_pool answer) = shm_pool_unref_external w answer

  -- A buffer is made where the format and the numbers are good, and there is memory.
  abbrev pub is_made : World → BufferRequest → Bool
  is_made w r =
      format_is_supported formats r.format
      && (is_valid_shape r.offset r.width r.height r.stride w.pool.size
          && (r.can_alloc && is_some r.resource))

  -- The holders that there are after a request.
  abbrev pub after : World → Request → Holders
  after w (create_buffer r) = record (view w) {
    buffers = if is_made w r then suc (length w.buffers) else length w.buffers;
  }
  after w (drop_buffer id) = record (view w) { buffers = length w.buffers - 1 }
  after w drop_pool = record (view w) { client = false }
  after w (resize_pool size answer) = view w
  after w ref_pool = record (view w) { held = w.held + 1 }
  after w (unref_pool answer) = record (view w) { held = w.held - 1 }

  create_buffer-Stepped :
      (w : World) (r : BufferRequest)
      → IsWorld w
      → Stepped w (after w (create_buffer r)) (shm_pool_create_buffer formats w r)
  unfolding shm_pool_create_buffer
  create_buffer-Stepped w r v = elim (Bool-cases (format_is_supported formats r.format)) [
    | inr e ↦ rw e (same-Stepped w _ v)
    | inl e ↦
        rw e (elim (Bool-cases (is_valid_shape r.offset r.width r.height r.stride w.pool.size)) [
          | inr e' ↦ rw e' (same-Stepped w _ v)
          | inl e' ↦ rw e' (elim (Bool-cases r.can_alloc) [
            | inr e'' ↦ rw e'' (same-Stepped w _ v)
            | inl e'' ↦ rw e'' (by_resource e' r.resource)
          ])
        ])
  ]
    where
      by_resource :
          is_valid_shape r.offset r.width r.height r.stride w.pool.size ≡ true
          → (resource : Option ℕ)
          → Stepped w
              (record (view w) {
                buffers = if is_some resource then suc (length w.buffers) else length w.buffers;
              })
              (elim resource as (λ x. Outcome) [
                | none ↦ tell post_no_memory (
                    after_unref w (
                      shm_pool_unref none false
                        (record (w.pool) { internal_refcount = w.pool.internal_refcount + 1 })))
                | some id ↦
                    lives
                      (record w {
                        pool = record (w.pool) { internal_refcount = w.pool.internal_refcount + 1 };
                        buffers = buffer_of r id ∷ w.buffers;
                      })
                      []
              ])
      by_resource valid none =
          let c = v.counted in
          tell-Stepped w (view w) post_no_memory _ (
            unref_internal-Stepped w (view w) none w
              (record (w.pool) { internal_refcount = w.pool.internal_refcount + 1 }) (omega arith)
              (record {
                internal = omega (arith, c.internal);
                external = c.external;
                sizes = c.sizes;
                mapped = c.mapped;
                inside = c.inside;
              })
              (inr (inr (refl, refl))) refl)
      by_resource valid (some id) =
          let c = v.counted in
          stays
            (record {
              counted = record {
                internal = omega (arith, c.internal);
                external = c.external;
                sizes = c.sizes;
                mapped = c.mapped;
                inside = (
                  Fits-natural r.offset r.width r.height r.stride w.pool.size
                      ((is_valid_shape_iff r.offset r.width r.height r.stride w.pool.size).0 valid),
                  c.inside,
                );
              };
              used = omega arith;
            })
            (inr (inr (refl, refl))) refl

  -- After a request that is allowed, to a pool that is alive, there are the holders that the request is
  -- to leave: a buffer more only where its format and its numbers are good and there is memory, and
  -- one fewer where one is given up. The pool is then alive, with as many references as there are
  -- holders and all its buffers inside its mapping, or there are no holders and it is freed. No
  -- assertion fails, and the mapping stays as it is unless the compositor has no reference to the
  -- pool before or after the request.
  pub step-Stepped :
      (w : World) (r : Request) → IsWorld w → Allowed w r → Stepped w (after w r) (step w r)
  unfolding step
  step-Stepped w (create_buffer r) v a = create_buffer-Stepped w r v
  step-Stepped w (drop_buffer id) v a = destroy_buffer-Stepped w id v a
  step-Stepped w drop_pool v a = destroy_pool-Stepped w v a
  step-Stepped w (resize_pool size answer) v a = resize-Stepped w size answer v
  step-Stepped w ref_pool v a = ref_pool-Stepped w v
  step-Stepped w (unref_pool answer) v a = unref_external-Stepped_world w answer v a

-- ===== src/Wayland/Shm/Runs.antt =====
-- Whole lives of pools of packages/wayland/build/src/wayland-shm.c: what a list of requests leaves of one.
use mathlib.Core.Option.{none-ne-some, some-injective}
use k1os.Prelude.{
  ap, ◌∷◌, ◌++◌, ℕ, zero, suc, ◌+◌, ◌*◌, ◌≤◌, ◌<◌, ◌≡◌, refl, subst, true, false, Option, none,
  some, List, [], ◌∷◌, arith, inl, inr, ltb, not, if◌then◌else◌, get_elem?, Bool-cases, ◌==◌,
}
use k1os.Wayland.Shm.{
  Event, post_error, post_no_memory, invalid_fd, Buffer, World, Outcome, lives, freed, aborts,
  natural, PoolRequest, Created, created, refused, undone, shm_create_pool, shm_buffer_get_data,
}
use k1os.Wayland.Shm.Steps.{count, Inside, AllInside, IsWorld, Stepped, stays, last}
use k1os.Wayland.Shm.Lifetime.{Request, Allowed, step, after, step-Stepped}

-- What holds of the pool, if it is not freed.
abbrev pub Later : (World → Type 0) → Outcome → Type 0
Later P (lives w events) = P w
Later P (freed address size) = Unit
Later P aborts = Unit

nth-Inside :
    (n : ℕ) (bs : List Buffer) (k : ℕ) (b : Buffer)
    → AllInside n bs
    → get_elem? bs k ≡ some b
    → Inside n b
nth-Inside n [] k b v e = elim (none-ne-some b e) [ ]
nth-Inside n (b' ∷ bs) zero b (fits, rest) e = subst (Inside n) (some-injective b' b e) fits
nth-Inside n (b' ∷ bs) (suc k) b (fits, rest) e = nth-Inside n bs k b rest e

-- What holds of the pool, if one is made.
abbrev Makes : (World → Type 0) → Created → Type 0
Makes P (created w) = P w
Makes P (refused event) = Unit
Makes P (undone address size event) = Unit

shm_create_pool-IsWorld : (q : PoolRequest) → Makes IsWorld (shm_create_pool q)
unfolding shm_create_pool
shm_create_pool-IsWorld q = elim (Bool-cases (natural q.size == 0)) [
  | inl e ↦ rw e tt
  | inr e ↦
      rw e (elim (Bool-cases q.can_alloc) [
        | inr e' ↦ rw e' tt
        | inl e' ↦ rw e' (by_mapping q.mapping)
      ])
]
  where
    new : ℕ → World
    new address = record {
      pool = record {
        resource = true;
        internal_refcount = 1;
        external_refcount = 0;
        mapping = address;
        size = natural q.size;
        new_size = natural q.size;
        sigbus_is_impossible = elim q.sealed_size [
          | none ↦ false
          | some n ↦ not (ltb n (natural q.size))
        ];
        region = (address, natural q.size);
      };
      buffers = [];
      held = 0;
    }

    by_mapping :
        (answer : Option ℕ)
        → Makes IsWorld (elim answer as (λ x. Created) [
          | none ↦ refused (post_error invalid_fd)
          | some address ↦
              if q.resource
              then created (new address)
              else undone address (natural q.size) post_no_memory
        ])
    by_mapping none = tt
    by_mapping (some address) = elim (Bool-cases q.resource) [
      | inr e ↦ rw e tt
      | inl e ↦ rw e (record {
        counted = record {
          internal = refl;
          external = refl;
          sizes = omega arith;
          inside = tt;
          mapped = refl;
        };
        used = omega arith;
      })
    ]

module _ (formats : List ℕ) where
  -- Requests, one after another; those that come when the pool is freed are for none.
  unfoldable pub run : World → List Request → Outcome
  run w [] = lives w []
  run w (r ∷ requests) = elim (step formats w r) [
    | lives w' events ↦ run w' requests
    | freed address size ↦ freed address size
    | aborts ↦ aborts
  ]

  abbrev pub Legal : World → List Request → Type 0
  Legal w [] = Unit
  Legal w (r ∷ requests) =
      Allowed w r × Later (λ (w' : World). Legal w' requests) (step formats w r)

  -- A pool that is alive and counts right, or one that is freed by the first request after which there
  -- are no holders.
  pub data Survives (w : World) (requests : List Request) : Outcome → Type 0 where
    alive : {w' : World} {events : List Event} → IsWorld w' → Survives w requests (lives w' events)
    gone :
        {address size : ℕ} (w' : World) (events : List Event) (before later : List Request)
        (r : Request)
        → requests ≡ before ++ r ∷ later
        → run w before ≡ lives w' events
        → IsWorld w'
        → count (after formats w' r) ≡ 0
        → Survives w requests (freed address size)

  -- With one request more in front.
  Survives-cons :
      (w w₁ : World) (r : Request) (requests : List Request) (events : List Event) (o : Outcome)
      → step formats w r ≡ lives w₁ events
      → Survives w₁ requests o
      → Survives w (r ∷ requests) o
  unfolding run
  Survives-cons w w₁ r requests events _ e (alive v) = alive v
  Survives-cons w w₁ r requests events _ e
        (gone w' events' before later last_one split runs v none_left) =
      gone w' events' (r ∷ before) later last_one (ap (◌∷◌ r) split) (rw (run, e) runs) v none_left

  run-Survives :
      (w : World) (requests : List Request)
      → IsWorld w
      → Legal w requests
      → Survives w requests (run w requests)
  unfolding run
  run-Survives w [] v legal = alive v
  run-Survives w (r ∷ requests) v (allowed, legal) =
      by_step (λ (w' : World) (v' : IsWorld w'). run-Survives w' requests v') (step formats w r)
        refl (step-Stepped formats w r v allowed) legal
    where
      by_step :
          ((w' : World) → IsWorld w' → Legal w' requests → Survives w' requests (run w' requests))
          → (o : Outcome) → step formats w r ≡ o
          → Stepped w (after formats w r) o
          → Later (λ (w' : World). Legal w' requests) o
          → Survives w (r ∷ requests) (elim o as (λ x. Outcome) [
            | lives w' events ↦ run w' requests
            | freed address size ↦ freed address size
            | aborts ↦ aborts
          ])
      by_step later _ e (stays {w'} v' pinned same) legal' =
          Survives-cons w w' r requests _ _ e (later _ v' legal')
      by_step later _ e (last none_left) legal' = gone w [] [] requests r refl refl v none_left

  -- A pool that shm_create_pool makes survives every list of requests that name what is there when
  -- their turn comes: no assertion fails, and in the end it is alive, with as many references as there
  -- are holders and all its buffers inside its mapping, or it is freed, by a request before which it
  -- was alive and after which there are no holders.
  pub shm_create_pool-run :
      (q : PoolRequest) (w : World) (requests : List Request)
      → shm_create_pool q ≡ created w
      → Legal w requests
      → Survives w requests (run w requests)
  shm_create_pool-run q w requests made legal =
      run-Survives w requests (subst (Makes IsWorld) made (shm_create_pool-IsWorld q)) legal

  -- Whatever a client has asked of a pool that is made and not freed, with requests that name what is
  -- there, each byte of the rows of each of its buffers, from the address that
  -- wl_shm_buffer_get_data returns on, lies in the
  -- mapping that the system has for the pool.
  pub shm_buffer_get_data_lem :
      (q : PoolRequest) (w w' : World) (events : List Event) (requests : List Request)
      → shm_create_pool q ≡ created w
      → Legal w requests
      → run w requests ≡ lives w' events
      → (k i : ℕ) (b : Buffer) → get_elem? w'.buffers k ≡ some b
      → i < b.stride * b.height
      → (w'.pool.region.0 ≤ shm_buffer_get_data w' b + i)
        × (shm_buffer_get_data w' b + i < w'.pool.region.0 + w'.pool.region.1)
  unfolding shm_buffer_get_data
  shm_buffer_get_data_lem q w w' events requests made legal e k i b here less =
      by_alive (subst (Survives w requests) e (shm_create_pool-run q w requests made legal))
    where
      by_alive :
          Survives w requests (lives w' events)
          → (w'.pool.region.0 ≤ w'.pool.mapping + b.offset + i)
            × (w'.pool.mapping + b.offset + i < w'.pool.region.0 + w'.pool.region.1)
      by_alive (alive v) =
          let inside = nth-Inside w'.pool.size w'.buffers k b v.counted.inside here in
          let start = ap (λ (r : ℕ × ℕ). r.0) v.counted.mapped in
          let size = ap (λ (r : ℕ × ℕ). r.1) v.counted.mapped in
          omega (arith, inside, less, start, size)

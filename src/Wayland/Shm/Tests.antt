-- ===== src/Wayland/Shm/Tests.antt =====
-- Pools of shared memory at concrete inputs, and the theorems on them at inputs that meet their hypotheses.
use k1os.Prelude.{
  ℕ, ◌+◌, ◌≤◌, ◌<◌, ◌≡◌, ◌↔◌, refl, inl, true, false, none, some, List, [], ◌∷◌, arith,
}
use k1os.Wayland.Shm.{
  pos, Pool, World, freed, BufferRequest, PoolRequest, shm_create_pool, is_valid_shape,
  format_is_supported, buffer_of, shm_pool_create_buffer, destroy_buffer, destroy_pool,
  shm_pool_resize, shm_buffer_ref_pool, shm_pool_unref_external, shm_pool_unref,
  shm_pool_finish_resize, mremap, release, without, shm_buffer_get_data,
}
use k1os.Wayland.Shm.Bounds.{Fits, is_valid_shape_iff}
use k1os.Wayland.Shm.Steps.{IsWorld, Stepped}
use k1os.Wayland.Shm.Lifetime.{
  Request, create_buffer, drop_buffer, drop_pool, resize_pool, ref_pool, unref_pool, step, after,
  step-Stepped,
}
use k1os.Wayland.Shm.Runs.{Survives, run, shm_create_pool-run, shm_buffer_get_data_lem}
use k1os.Wayland.Shm.Access.Sessions.{
  Action, begin, end, fault, untouched, Ended, reports, act_all, act_all-Ended,
}

-- A mapping of 64 bytes, asked for by a client that has not sealed the file.
abbrev pool_request : PoolRequest
pool_request = record {
  size = pos 64;
  can_alloc = true;
  sealed_size = none;
  mapping = some 4096;
  resource = true;
}

abbrev new_world : World
new_world = record {
  pool = record {
    resource = true;
    internal_refcount = 1;
    external_refcount = 0;
    mapping = 4096;
    size = 64;
    new_size = 64;
    sigbus_is_impossible = false;
    region = (4096, 64);
  };
  buffers = [];
  held = 0;
}

-- Two rows of two pixels, at the end of the mapping.
abbrev buffer_request : BufferRequest
buffer_request = record {
  offset = pos 48;
  width = pos 2;
  height = pos 2;
  stride = pos 8;
  format = 1;
  can_alloc = true;
  resource = some 7;
}

-- The pool is resized while the compositor holds it, and loses its client and its buffer.
abbrev requests : List Request
requests =
    create_buffer buffer_request
    ∷ ref_pool
    ∷ resize_pool (pos 128) none
    ∷ drop_pool
    ∷ unref_pool (some 8192)
    ∷ drop_buffer 7
    ∷ []

frees_pool : run [] new_world requests ≡ freed 8192 128
unfolding run step format_is_supported is_valid_shape shm_pool_create_buffer destroy_buffer
    destroy_pool shm_pool_resize shm_buffer_ref_pool shm_pool_unref_external shm_pool_unref
    shm_pool_finish_resize mremap release without
frees_pool = refl

is_valid_shape_iff_example :
    (is_valid_shape (pos 48) (pos 2) (pos 2) (pos 8) 64 ≡ true)
    ↔ Fits (pos 48) (pos 2) (pos 2) (pos 8) 64
is_valid_shape_iff_example = is_valid_shape_iff (pos 48) (pos 2) (pos 2) (pos 8) 64

new_world-IsWorld : IsWorld new_world
new_world-IsWorld = record {
  counted = record {
    internal = refl;
    external = refl;
    sizes = omega arith;
    inside = tt;
    mapped = refl;
  };
  used = omega arith;
}

step-Stepped_example :
    Stepped new_world
      (after [] new_world (create_buffer buffer_request))
      (step [] new_world (create_buffer buffer_request))
step-Stepped_example =
    step-Stepped [] new_world (create_buffer buffer_request) new_world-IsWorld refl

shm_create_pool-run_example : Survives [] new_world requests (run [] new_world requests)
unfolding shm_create_pool step format_is_supported is_valid_shape shm_pool_create_buffer
    destroy_buffer destroy_pool shm_pool_resize shm_buffer_ref_pool shm_pool_unref_external
    shm_pool_unref shm_pool_finish_resize mremap release without
shm_create_pool-run_example =
    shm_create_pool-run [] pool_request new_world requests refl
      (refl, (omega arith, (refl, (refl, (omega arith, (inl refl, tt))))))

abbrev with_buffer : World
with_buffer = record new_world {
  pool = record (new_world.pool) { internal_refcount = 2 };
  buffers = buffer_of buffer_request 7 ∷ [];
}

-- The last byte of the buffer is the last byte of the mapping.
shm_buffer_get_data_lem_example :
    (4096 ≤ shm_buffer_get_data with_buffer (buffer_of buffer_request 7) + 15)
    × (shm_buffer_get_data with_buffer (buffer_of buffer_request 7) + 15 < 4096 + 64)
unfolding shm_create_pool run step format_is_supported is_valid_shape shm_pool_create_buffer
shm_buffer_get_data_lem_example =
    shm_buffer_get_data_lem [] pool_request new_world with_buffer []
      (create_buffer buffer_request ∷ []) refl (refl, tt) refl 0 15 (buffer_of buffer_request 7)
      refl (omega arith)

-- Two nested accesses, with a fault in the inner one, and one with no fault.
abbrev actions : List Action
actions = begin ∷ begin ∷ fault 4100 ∷ end ∷ end ∷ begin ∷ end ∷ []

abbrev pools : ℕ → Pool
pools p = new_world.pool

act_all-Ended_example : Ended pools 5 (reports 0 false actions) (act_all pools 5 actions none)
act_all-Ended_example =
    act_all-Ended pools 5 refl actions 0 false none untouched (omega arith, omega arith, refl)

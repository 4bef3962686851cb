-- ===== src/Wayland/Shm.antt =====
-- The pools of shared memory of packages/wayland/build/src/wayland-shm.c, where mremap moves a
-- mapping. The answers of malloc, mmap, mremap and wl_resource_create come with the requests.
pub mod Bounds
pub mod Steps
pub mod Changes
pub mod Lifetime
pub mod Runs
pub mod Access
mod Tests
use k1os.Prelude.{
  ℕ, suc, ◌+◌, ◌-◌, ◌*◌, ◌/◌, Bool, true, false, not, ◌&&◌, ◌||◌, Option, none, some, List, [], ◌∷◌,
  ◌++◌, arith, ltb, ◌==◌, if◌then◌else◌,
}

-- `negsuc n` is -(n + 1)
pub data ℤ : Type 0 where
  pos : ℕ → ℤ
  negsuc : ℕ → ℤ

abbrev pub int32_max : ℕ
int32_max = 2147483647

abbrev pub argb8888 : ℕ
argb8888 = 0

abbrev pub xrgb8888 : ℕ
xrgb8888 = 1

pub data Error : Type 0 where
  invalid_format : Error
  invalid_stride : Error
  invalid_fd : Error

-- What the client is told.
pub data Event : Type 0 where
  post_error : Error → Event
  post_no_memory : Event

-- `resource` is whether there is one, `mapping` the address in `data`. `region` is no member of the
-- struct: it is the address and the size of the mapping that the system has.
pub record Pool : Type 0 where
  pub resource : Bool
  pub internal_refcount : ℕ
  pub external_refcount : ℕ
  pub mapping : ℕ
  pub size : ℕ
  pub new_size : ℕ
  pub sigbus_is_impossible : Bool
  pub region : ℕ × ℕ

pub record Buffer : Type 0 where
  pub resource : ℕ
  pub width : ℕ
  pub height : ℕ
  pub stride : ℕ
  pub format : ℕ
  pub offset : ℕ

-- A pool with the buffers that point to it, and the references to it that the compositor has taken.
pub record World : Type 0 where
  pub pool : Pool
  pub buffers : List Buffer
  pub held : ℕ

-- What becomes of a pool that loses a reference: it stays, or its mapping is undone and it is freed,
-- or an assertion fails.
pub data Unreffed : Type 0 where
  kept : Pool → List Event → Unreffed
  unmapped : ℕ → ℕ → Unreffed
  failed : Unreffed

pub data Outcome : Type 0 where
  lives : World → List Event → Outcome
  freed : ℕ → ℕ → Outcome
  aborts : Outcome

-- What mremap does with a mapping: where it succeeds it has the new address and the new size.
unfoldable pub mremap : Option ℕ → ℕ → ℕ × ℕ → Option ℕ × (ℕ × ℕ)
mremap none new_size region = (none, region)
mremap (some address) new_size region = (some address, (address, new_size))

-- The answer of mremap is the new address.
unfoldable pub shm_pool_finish_resize : Option ℕ → Pool → Pool × List Event
shm_pool_finish_resize answer p =
    let moved = mremap answer p.new_size p.region in
    let p' = record p { region = moved.1 } in
    let grown : Pool × List Event = elim moved.0 [
      | none ↦ (p', if p.resource then post_error invalid_fd ∷ [] else [])
      | some address ↦ (record p' { mapping = address; size = p.new_size }, [])
    ] in
    if p.size == p.new_size then (p, []) else grown

-- The end of shm_pool_unref.
unfoldable pub release : Pool → List Event → Unreffed
release p events =
    if ltb 0 (p.internal_refcount + p.external_refcount)
    then kept p events
    else unmapped p.mapping p.size

unfoldable pub shm_pool_unref : Option ℕ → Bool → Pool → Unreffed
shm_pool_unref answer true p =
    let p' = record p { external_refcount = p.external_refcount - 1 } in
    let resized : Pool × List Event =
      (if p'.external_refcount == 0 then shm_pool_finish_resize answer p' else (p', [])) in
    if p.external_refcount == 0 then failed else release (resized.0) (resized.1)
shm_pool_unref answer false p =
    if p.internal_refcount == 0
    then failed
    else release (record p { internal_refcount = p.internal_refcount - 1 }) []

abbrev pub after_unref : World → Unreffed → Outcome
after_unref w (kept p events) = lives (record w { pool = p }) events
after_unref w (unmapped address size) = freed address size
after_unref w failed = aborts

abbrev pub tell : Event → Outcome → Outcome
tell e (lives w events) = lives w (e ∷ events)
tell e (freed address size) = freed address size
tell e aborts = aborts

unfoldable pub is_listed : ℕ → List ℕ → Bool
is_listed format [] = false
is_listed format (f ∷ formats) =
    let rest = is_listed format formats in if f == format then true else rest

unfoldable pub format_is_supported : List ℕ → ℕ → Bool
format_is_supported formats format =
    if (format == argb8888) || (format == xrgb8888) then true else is_listed format formats

-- The test of shm_pool_create_buffer on its numbers. The offset is compared with the size less the
-- bytes of the buffer in C; here the bytes are on the other side.
unfoldable pub is_valid_shape : ℤ → ℤ → ℤ → ℤ → ℕ → Bool
is_valid_shape (pos offset) (pos width) (pos height) (pos stride) size = not (
    (width == 0)
    || (height == 0)
    || ltb stride width
    || ltb (int32_max / stride) height
    || ltb size (offset + stride * height))
is_valid_shape _ _ _ _ size = false

abbrev pub natural : ℤ → ℕ
natural (pos n) = n
natural (negsuc _) = 0

-- The requests of a client and the calls of the compositor, with the answers that they get.
pub record BufferRequest : Type 0 where
  pub offset : ℤ
  pub width : ℤ
  pub height : ℤ
  pub stride : ℤ
  pub format : ℕ
  pub can_alloc : Bool
  pub resource : Option ℕ

abbrev pub buffer_of : BufferRequest → ℕ → Buffer
buffer_of r id = record {
  resource = id;
  width = natural r.width;
  height = natural r.height;
  stride = natural r.stride;
  format = r.format;
  offset = natural r.offset;
}

unfoldable pub shm_pool_create_buffer : List ℕ → World → BufferRequest → Outcome
shm_pool_create_buffer formats w r =
    let p = record (w.pool) { internal_refcount = w.pool.internal_refcount + 1 } in
    let made : Outcome = elim r.resource [
      | none ↦ tell post_no_memory (after_unref w (shm_pool_unref none false p))
      | some id ↦ lives (record w { pool = p; buffers = buffer_of r id ∷ w.buffers }) []
    ] in
    if not (format_is_supported formats r.format)
    then lives w (post_error invalid_format ∷ [])
    else if not (is_valid_shape r.offset r.width r.height r.stride w.pool.size)
    then lives w (post_error invalid_stride ∷ [])
    else if r.can_alloc
    then made
    else lives w (post_no_memory ∷ [])

-- The buffers but for the one with this resource.
unfoldable pub without : ℕ → List Buffer → List Buffer
without id [] = []
without id (b ∷ bs) = let rest = without id bs in if b.resource == id then bs else b ∷ rest

unfoldable pub destroy_buffer : World → ℕ → Outcome
destroy_buffer w id =
    after_unref (record w { buffers = without id w.buffers }) (shm_pool_unref none false w.pool)

unfoldable pub destroy_pool : World → Outcome
destroy_pool w = after_unref w (shm_pool_unref none false (record (w.pool) { resource = false }))

unfoldable pub shm_pool_resize : World → ℤ → Option ℕ → Outcome
shm_pool_resize w (negsuc size) answer = lives w (post_error invalid_fd ∷ [])
shm_pool_resize w (pos size) answer =
    let p = record (w.pool) { new_size = size } in
    let resized : Pool × List Event =
      (if w.pool.external_refcount == 0 then shm_pool_finish_resize answer p else (p, [])) in
    if ltb size w.pool.size
    then lives w (post_error invalid_fd ∷ [])
    else lives (record w { pool = resized.0 }) (resized.1)

unfoldable pub shm_buffer_ref_pool : World → Outcome
shm_buffer_ref_pool w =
    if w.pool.internal_refcount + w.pool.external_refcount == 0
    then aborts
    else lives
        (record w {
          pool = record (w.pool) { external_refcount = w.pool.external_refcount + 1 };
          held = w.held + 1;
        })
        []

unfoldable pub shm_pool_unref_external : World → Option ℕ → Outcome
shm_pool_unref_external w answer =
    after_unref (record w { held = w.held - 1 }) (shm_pool_unref answer true w.pool)

unfoldable pub shm_buffer_get_data : World → Buffer → ℕ
shm_buffer_get_data w b = w.pool.mapping + b.offset

-- The size that is asked for, the size of the file where it is sealed against shrinking, and the
-- answers of malloc, mmap and wl_resource_create.
pub record PoolRequest : Type 0 where
  pub size : ℤ
  pub can_alloc : Bool
  pub sealed_size : Option ℕ
  pub mapping : Option ℕ
  pub resource : Bool

pub data Created : Type 0 where
  created : World → Created
  refused : Event → Created
  undone : ℕ → ℕ → Event → Created

unfoldable pub shm_create_pool : PoolRequest → Created
shm_create_pool r =
    let size = natural r.size in
    let mapped : Created = elim r.mapping [
      | none ↦ refused (post_error invalid_fd)
      | some address ↦
          if r.resource
          then created (record {
            pool = record {
              resource = true;
              internal_refcount = 1;
              external_refcount = 0;
              mapping = address;
              size = size;
              new_size = size;
              sigbus_is_impossible = elim r.sealed_size [
                | none ↦ false
                | some n ↦ not (ltb n size)
              ];
              region = (address, size);
            };
            buffers = [];
            held = 0;
          })
          else undone address size post_no_memory
    ] in
    if size == 0
    then refused (post_error invalid_stride)
    else if r.can_alloc
    then mapped
    else refused post_no_memory

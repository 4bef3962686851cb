-- ===== src/Wayland/Shm/Access.antt =====
-- wl_shm_buffer_begin_access, wl_shm_buffer_end_access and the handler of SIGBUS of
-- packages/wayland/build/src/wayland-shm.c, in one thread. A pool is named by its address.
pub mod Sessions
use k1os.Prelude.{
  ℕ, ◌+◌, ◌-◌, Bool, true, false, not, ◌||◌, Option, none, some, List, [], ◌∷◌, ltb, ◌==◌,
  if◌then◌else◌,
}
use k1os.Wayland.Shm.{Pool, Event, post_error, invalid_fd}

pub record SigbusData : Type 0 where
  pub current_pool : Option ℕ
  pub access_count : ℕ
  pub fallback_mapping_used : Bool

-- What a call leaves: the data of the thread, if it has any, and what the client is told; or an
-- assertion fails, or the signal is raised again.
pub data Accessed : Type 0 where
  ongoing : Option SigbusData → List Event → Accessed
  asserted : Accessed
  reraised : Accessed

abbrev zeroed : SigbusData
zeroed = record { current_pool = none; access_count = 0; fallback_mapping_used = false }

-- There is no pool, or it is `p`.
unfoldable pub may_enter : ℕ → Option ℕ → Bool
may_enter p none = true
may_enter p (some p') = p' == p

unfoldable pub enter : ℕ → SigbusData → Accessed
enter p d =
    if may_enter p d.current_pool
    then ongoing (some (record d { current_pool = some p; access_count = d.access_count + 1 })) []
    else asserted

unfoldable pub leave : SigbusData → Accessed
leave d =
    let n = d.access_count - 1 in
    if n == 0
    then ongoing
        (some (record { current_pool = none; access_count = n; fallback_mapping_used = false }))
        (if d.fallback_mapping_used then post_error invalid_fd ∷ [] else [])
    else ongoing (some (record d { access_count = n })) []

module _ (pools : ℕ → Pool) where
  unfoldable pub shm_buffer_begin_access : Bool → ℕ → Option SigbusData → Accessed
  shm_buffer_begin_access can_alloc p t =
      let entered : Accessed = elim t [
        | some d ↦ enter p d
        | none ↦ if can_alloc then enter p zeroed else ongoing none []
      ] in
      if (pools p).sigbus_is_impossible then ongoing t [] else entered

  unfoldable pub shm_buffer_end_access : ℕ → Option SigbusData → Accessed
  shm_buffer_end_access p t =
      let left : Accessed = elim t [
        | some d ↦ if d.access_count == 0 then asserted else leave d
        | none ↦ asserted
      ] in
      if (pools p).sigbus_is_impossible then ongoing t [] else left

  -- The mapping at the address, replaced where mmap does so.
  unfoldable pub replace_mapping : Bool → ℕ → SigbusData → Option ℕ → Accessed
  replace_mapping is_mapped address d none = reraised
  replace_mapping is_mapped address d (some p) =
      if ltb address (pools p).mapping || not (ltb address ((pools p).mapping + (pools p).size))
      then reraised
      else if is_mapped
      then ongoing (some (record d { fallback_mapping_used = true })) []
      else reraised

  unfoldable pub sigbus_handler : Bool → ℕ → Option SigbusData → Accessed
  sigbus_handler is_mapped address none = reraised
  sigbus_handler is_mapped address (some d) = replace_mapping is_mapped address d d.current_pool

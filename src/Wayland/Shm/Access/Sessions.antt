-- ===== src/Wayland/Shm/Access/Sessions.antt =====
-- Accesses of a thread to the buffers of one pool, with the signals that they raise, of
-- packages/wayland/build/src/wayland-shm.c.
use k1os.Prelude.{
  ℕ, zero, suc, ◌+◌, ◌-◌, ◌≤◌, ◌<◌, ◌≡◌, refl, Bool, true, false, Option, none, some, List, [], ◌∷◌,
  ◌++◌, arith, ◌==◌, ==_refl, if◌then◌else◌, le→ltb, lt→ltb,
}
use k1os.Wayland.Shm.{Pool, Event, post_error, invalid_fd}
use k1os.Wayland.Shm.Access.{
  SigbusData, Accessed, ongoing, asserted, reraised, may_enter, enter, leave,
  shm_buffer_begin_access, shm_buffer_end_access, replace_mapping, sigbus_handler,
}

-- What happens in a thread: an access begins or ends, or memory at an address is not there.
pub data Action : Type 0 where
  begin : Action
  end : Action
  fault : ℕ → Action

-- The data of a thread that has begun so many accesses, with a fault in them or not.
pub data Holds (p : ℕ) : ℕ → Bool → Option SigbusData → Type 0 where
  untouched : Holds p 0 false none
  outside :
      Holds p 0 false
        (some (record { current_pool = none; access_count = 0; fallback_mapping_used = false }))
  within :
      (n : ℕ) (faulted : Bool)
      → Holds p (suc n) faulted (
          some (record {
            current_pool = some p;
            access_count = suc n;
            fallback_mapping_used = faulted;
          }))

-- One error for each outermost access in which there is a fault.
abbrev pub reports : ℕ → Bool → List Action → List Event
reports n faulted [] = []
reports n faulted (begin ∷ actions) = reports (suc n) faulted actions
reports zero faulted (end ∷ actions) = []
reports (suc zero) faulted (end ∷ actions) =
    (if faulted then post_error invalid_fd ∷ [] else []) ++ reports 0 false actions
reports (suc (suc n)) faulted (end ∷ actions) = reports (suc n) faulted actions
reports n faulted (fault address ∷ actions) = reports n true actions

abbrev pub and_then : Accessed → (Option SigbusData → Accessed) → Accessed
and_then (ongoing t events) next = elim (next t) [
  | ongoing t' events' ↦ ongoing t' (events ++ events')
  | asserted ↦ asserted
  | reraised ↦ reraised
]
and_then asserted next = asserted
and_then reraised next = reraised

plus_one : (n : ℕ) → n + 1 ≡ suc n
plus_one n = omega arith

minus_one : (n : ℕ) → suc (suc n) - 1 ≡ suc n
minus_one n = omega arith

suc_test : (n : ℕ) → (suc n == 0) ≡ false
suc_test n = ground arith

module _ (pools : ℕ → Pool) (p : ℕ) where
  -- As many accesses end as begin, and the faults are in them, in the pool's mapping.
  abbrev pub Nested : ℕ → List Action → Type 0
  Nested n [] = n ≡ 0
  Nested n (begin ∷ actions) = Nested (suc n) actions
  Nested zero (end ∷ actions) = ⊥
  Nested (suc n) (end ∷ actions) = Nested n actions
  Nested zero (fault address ∷ actions) = ⊥
  Nested (suc n) (fault address ∷ actions) =
      ((pools p).mapping ≤ address)
      × (address < (pools p).mapping + (pools p).size)
      × Nested (suc n) actions

  unfoldable pub act : Action → Option SigbusData → Accessed
  act begin t = shm_buffer_begin_access pools true p t
  act end t = shm_buffer_end_access pools p t
  act (fault address) t = sigbus_handler pools true address t

  unfoldable pub act_all : List Action → Option SigbusData → Accessed
  act_all [] t = ongoing t []
  act_all (a ∷ actions) t = and_then (act a t) (act_all actions)

  pub record Ended (events : List Event) (r : Accessed) : Type 0 where
    pub thread : Option SigbusData
    pub result : r ≡ ongoing thread events
    pub holds : Holds p 0 false thread

  module _ (possible : (pools p).sigbus_is_impossible ≡ false) where
    begins :
        (n : ℕ) (faulted : Bool) (t : Option SigbusData)
        → Holds p n faulted t
        → shm_buffer_begin_access pools true p t
          ≡ ongoing
              (some (record {
                current_pool = some p;
                access_count = suc n;
                fallback_mapping_used = faulted;
              }))
              []
    unfolding shm_buffer_begin_access enter may_enter
    begins n faulted t untouched = rw possible refl
    begins n faulted t outside = rw possible refl
    begins n faulted t (within m _) = rw possible (rw (==_refl p) (rw (plus_one (suc m)) refl))

    ends_last :
        (faulted : Bool) (t : Option SigbusData)
        → Holds p 1 faulted t
        → shm_buffer_end_access pools p t
          ≡ ongoing
              (some
                (record { current_pool = none; access_count = 0; fallback_mapping_used = false }))
              (if faulted then post_error invalid_fd ∷ [] else [])
    unfolding shm_buffer_end_access leave
    ends_last faulted t (within zero _) = rw possible refl

    ends :
        (n : ℕ) (faulted : Bool) (t : Option SigbusData)
        → Holds p (suc (suc n)) faulted t
        → shm_buffer_end_access pools p t
          ≡ ongoing
              (some (record {
                current_pool = some p;
                access_count = suc n;
                fallback_mapping_used = faulted;
              }))
              []
    unfolding shm_buffer_end_access leave
    ends n faulted t (within m _) =
        rw possible (rw (suc_test m) (rw (leave, minus_one n, suc_test n) refl))

    faults :
        (n : ℕ) (faulted : Bool) (address : ℕ) (t : Option SigbusData)
        → (pools p).mapping ≤ address
        → address < (pools p).mapping + (pools p).size
        → Holds p (suc n) faulted t
        → sigbus_handler pools true address t
          ≡ ongoing
              (some (record {
                current_pool = some p;
                access_count = suc n;
                fallback_mapping_used = true;
              }))
              []
    unfolding sigbus_handler replace_mapping
    faults n faulted address t least less (within m _) =
        rw (le→ltb address (pools p).mapping least)
          (rw (lt→ltb address ((pools p).mapping + (pools p).size) less) refl)

    closed :
        (n : ℕ) (faulted : Bool) (t : Option SigbusData)
        → Holds p n faulted t
        → n ≡ 0
        → Holds p 0 false t
    closed n faulted t untouched e = untouched
    closed n faulted t outside e = outside
    closed n faulted t (within m _) e = absurd (omega (arith, e))

    then-Ended :
        (r : Accessed) (t : Option SigbusData) (events later : List Event)
        (next : Option SigbusData → Accessed)
        → r ≡ ongoing t events
        → Ended later (next t)
        → Ended (events ++ later) (and_then r next)
    then-Ended r t events later next first e =
        rw first
          (rw (and_then, e.result) (record { thread = e.thread; result = refl; holds = e.holds }))

    -- A thread that ends as many accesses to the buffers of a pool as it begins, or has begun, with
    -- faults only in them and in the mapping, comes through: the signal is never raised again and no
    -- assertion fails, the client gets one error for each outermost access with a fault, and in the
    -- end the thread is in no pool. This holds for a pool where faults are deemed possible, with
    -- memory for the thread's data and with mmap replacing the mapping.
    pub act_all-Ended :
        (actions : List Action) (n : ℕ) (faulted : Bool) (t : Option SigbusData)
        → Holds p n faulted t
        → Nested n actions
        → Ended (reports n faulted actions) (act_all actions t)
    unfolding act_all act
    act_all-Ended [] n faulted t h none_open = record {
      thread = t;
      result = refl;
      holds = closed n faulted t h none_open;
    }
    act_all-Ended (begin ∷ actions) n faulted t h nested =
        then-Ended _ _ [] _ (act_all actions) (begins n faulted t h)
          (act_all-Ended actions (suc n) faulted _ (within n faulted) nested)
    act_all-Ended (end ∷ actions) zero faulted t h nested = elim nested [ ]
    act_all-Ended (end ∷ actions) (suc zero) faulted t h nested =
        then-Ended _ _ _ _ (act_all actions) (ends_last faulted t h)
          (act_all-Ended actions 0 false _ outside nested)
    act_all-Ended (end ∷ actions) (suc (suc n)) faulted t h nested =
        then-Ended _ _ [] _ (act_all actions) (ends n faulted t h)
          (act_all-Ended actions (suc n) faulted _ (within n faulted) nested)
    act_all-Ended (fault address ∷ actions) zero faulted t h nested = elim nested [ ]
    act_all-Ended (fault address ∷ actions) (suc n) faulted t h (least, less, nested) =
        then-Ended _ _ [] _ (act_all actions) (faults n faulted address t least less h)
          (act_all-Ended actions (suc n) true _ (within n true) nested)

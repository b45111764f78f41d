-- ===== src/Event/Manager.antt =====
-- Waiting for events, and the tokens that they carry. (event_manager/src/lib.rs)
use virtio_device_poc.Base.{
  ℕ, zero, suc, ◌-◌, ◌^◌, ◌≡◌, refl, Bool, ◌||◌, Option, none, some, List, [], ◌∷◌, ◌++◌, map,
  Result, ok, err, ◌==◌, ltb, if◌then◌else◌, bit_and, replicate,
}
use virtio_device_poc.Event.Token.{EventToken, IsLawful}

-- The masks of vmm_sys_util::epoll::EventSet.
pub record EventSets : Type 0 where
  pub all : ℕ
  pub in_set : ℕ
  pub out_set : ℕ
  pub hang_up : ℕ
  pub read_hang_up : ℕ

-- What one epoll_wait gives: an array of events with their data, EINTR, or another error.
pub data WaitResult : Type 0 where
  ready : List (ℕ × ℕ) → WaitResult
  interrupted : WaitResult
  failed : ℕ → WaitResult

pub record TriggeredEvent (t : EventToken) : Type 0 where
  pub token : t.Carrier
  pub readable : Bool
  pub writable : Bool
  pub hungup : Bool

abbrev pub contains : ℕ → ℕ → Bool
contains set subset = bit_and set subset == subset

-- The timeout of epoll_wait in milliseconds; `none` is -1, no timeout.
unfoldable pub timeout_millis : Option ℕ → Option ℕ
timeout_millis none = none
timeout_millis (some ms) = if ltb ms (2 ^ 31) then some ms else some (2 ^ 31 - 1)

-- The loop around epoll_wait, on the results of the successive calls; `none` if all that are given
-- were interrupted.
unfoldable pub wait_loop : List WaitResult → Option (Result (List (ℕ × ℕ)) ℕ)
wait_loop [] = none
wait_loop (ready events ∷ rest) = some (ok events)
wait_loop (interrupted ∷ rest) = wait_loop rest
wait_loop (failed e ∷ rest) = some (err e)

module _ (sets : EventSets) (t : EventToken) where
  abbrev pub event_of : ℕ → t.Carrier → TriggeredEvent t
  event_of bits token =
      let event_set = bit_and bits sets.all in
      record {
        token = token;
        readable = contains event_set sets.in_set;
        writable = contains event_set sets.out_set;
        hungup = contains event_set sets.hang_up || contains event_set sets.read_hang_up;
      }

  -- `none` is the panic of from_raw_token.
  unfoldable pub triggered : ℕ × ℕ → Option (TriggeredEvent t)
  triggered (bits, raw) = elim (t.from_raw_token raw) [
    | none ↦ none
    | some token ↦ some (event_of bits token)
  ]

  unfoldable pub triggered_all : List (ℕ × ℕ) → Option (List (TriggeredEvent t))
  unfolding triggered
  triggered_all [] = some []
  triggered_all (e ∷ es) =
      let rest = triggered_all es in
      elim (triggered e) [
        | none ↦ none
        | some x ↦ elim rest [ none ↦ none | some xs ↦ some (x ∷ xs) ]
      ]

  -- `wait_timeout` after the results of epoll_wait: `none` while it waits, the inner one is a
  -- panic.
  unfoldable pub wait_timeout :
      List WaitResult → Option (Option (Result (List (TriggeredEvent t)) ℕ))
  unfolding wait_loop triggered_all
  wait_timeout results = elim (wait_loop results) [
    | none ↦ none
    | some r ↦ elim r [
      | err e ↦ some (some (err e))
      | ok events ↦ elim (triggered_all events) [ none ↦ some none | some xs ↦ some (some (ok xs)) ]
    ]
  ]

  -- `wait_one`: its array has room for one event, and another count fails the assertion.
  unfoldable pub one_event : List (ℕ × ℕ) → Option (TriggeredEvent t)
  unfolding triggered
  one_event [] = none
  one_event (e ∷ []) = triggered e
  one_event (e ∷ f ∷ es) = none

  unfoldable pub wait_one : List WaitResult → Option (Option (Result (TriggeredEvent t) ℕ))
  unfolding wait_loop one_event
  wait_one results = elim (wait_loop results) [
    | none ↦ none
    | some r ↦ elim r [
      | err e ↦ some (some (err e))
      | ok events ↦ elim (one_event events) [ none ↦ some none | some x ↦ some (some (ok x)) ]
    ]
  ]

  -- What the kernel gives back for descriptors that were added with these tokens.
  abbrev pub delivered : List (ℕ × t.Carrier) → List (ℕ × ℕ)
  delivered = map (λ (p : ℕ × t.Carrier). (p.0, t.as_raw_token p.1))

  abbrev pub AllValues : List (ℕ × t.Carrier) → Type 0
  AllValues [] = Unit {0}
  AllValues ((bits, x) ∷ rest) = t.IsValue x × AllValues rest

  module _ (lawful : IsLawful t) where
    triggered_all_lem :
        (es : List (ℕ × t.Carrier))
        → AllValues es
        → triggered_all (delivered es) ≡ some (map (λ (p : ℕ × t.Carrier). event_of p.0 p.1) es)
    unfolding triggered_all triggered
    triggered_all_lem [] v = refl
    triggered_all_lem ((bits, x) ∷ es) v =
        rw (lawful.round_trip x v.0, triggered_all) (rw (triggered_all_lem es v.1) refl)

    wait_loop-interrupted :
        (n : ℕ) (results : List WaitResult)
        → wait_loop (replicate n interrupted ++ results) ≡ wait_loop results
    unfolding wait_loop
    wait_loop-interrupted zero results = refl
    wait_loop-interrupted (suc n) results = wait_loop-interrupted n results

    -- For a lawful token type, however often the wait was interrupted: the events that come are
    -- given in order, each with the very token that its descriptor was added with, and without a
    -- panic.
    pub wait_timeout-tokens :
        (n : ℕ) (es : List (ℕ × t.Carrier)) (later : List WaitResult)
        → AllValues es
        → wait_timeout (replicate n interrupted ++ ready (delivered es) ∷ later)
          ≡ some (some (ok (map (λ (p : ℕ × t.Carrier). event_of p.0 p.1) es)))
    unfolding wait_timeout
    wait_timeout-tokens n es later v =
        rw (wait_loop-interrupted n (ready (delivered es) ∷ later), wait_timeout)
          (rw (triggered_all_lem es v) refl)

-- ===== src/VhostUser/Daemon.antt =====
-- How a connection ends. (vhost-user/src/lib.rs)
use virtio_device_poc.Base.{
  ℕ, ◌≡◌, ◌↔◌, ◌⊎◌, inl, inr, refl, subst, Option, none, some, Result, ok, err, ◌>>=◌, List, [],
  ◌∷◌,
}

-- The errors of the vhost crate that the daemon tells apart.
pub data HandleError : Type 0 where
  socket_broken disconnected partial_message : HandleError
  other : ℕ → HandleError

pub data DaemonError : Type 0 where
  new_vhost_user_handler create_backend_listener create_backend_req_handler : ℕ → DaemonError
  create_vhost_user_listener start_daemon : ℕ → DaemonError
  wait_daemon : DaemonError
  handle_request : HandleError → DaemonError

-- What `join` of the main thread gives: its result, or that it panicked.
pub data Join : Type 0 where
  joined : Result (Unit {0}) DaemonError → Join
  panicked : Join

-- The main thread: `handle_request` until it fails. The list holds the results of the calls;
-- `none` while they all succeed.
unfoldable pub main_thread :
    List (Result (Unit {0}) HandleError) → Option (Result (Unit {0}) DaemonError)
main_thread [] = none
main_thread (ok done ∷ rest) = main_thread rest
main_thread (err e ∷ rest) = some (err (handle_request e))

unfoldable pub after_join : Result (Unit {0}) DaemonError → Result (Unit {0}) DaemonError
after_join (ok done) = ok done
after_join (err (handle_request socket_broken)) = ok tt
after_join (err e) = err e

-- `wait`; there may be no thread to wait for.
unfoldable pub wait : Option Join → Result (Unit {0}) DaemonError
unfolding after_join
wait none = ok tt
wait (some panicked) = err wait_daemon
wait (some (joined r)) = after_join r

-- The accept loop: `ok none` is tried again; `none` if all calls that are given are.
unfoldable pub accept : List (Result (Option ℕ) ℕ) → Option (Result ℕ DaemonError)
accept [] = none
accept (err e ∷ rest) = some (err (create_backend_listener e))
accept (ok (some v) ∷ rest) = some (ok v)
accept (ok none ∷ rest) = accept rest

unfoldable pub expected : Result (Unit {0}) DaemonError → Result (Unit {0}) DaemonError
expected (ok done) = ok done
expected (err (handle_request disconnected)) = ok tt
expected (err (handle_request partial_message)) = ok tt
expected (err e) = err e

-- `serve`, after the result of `start`, with what the join of the thread gives.
unfoldable pub serve : Result (Unit {0}) DaemonError → Option Join → Result (Unit {0}) DaemonError
unfolding wait expected
serve started thread = started >>= λ done. expected (wait thread)

not_these :
    {A : Type 0} (r : Result (Unit {0}) DaemonError)
    → (r ≡ ok tt → ⊥)
    → (r ≡ err (handle_request socket_broken) → ⊥)
    → (r ≡ err (handle_request disconnected) → ⊥)
    → (r ≡ err (handle_request partial_message) → ⊥)
    → (r ≡ ok tt)
      ⊎ ((r ≡ err (handle_request socket_broken))
          ⊎ ((r ≡ err (handle_request disconnected)) ⊎ (r ≡ err (handle_request partial_message))))
    → A
not_these r a b c d (inl p) = absurd (a p)
not_these r a b c d (inr (inl p)) = absurd (b p)
not_these r a b c d (inr (inr (inl p))) = absurd (c p)
not_these r a b c d (inr (inr (inr p))) = absurd (d p)

-- Without an error, or because the front-end broke the socket, disconnected or left a message half
-- sent.
abbrev pub EndsWell : Result (Unit {0}) DaemonError → Type 0
EndsWell r =
    (r ≡ ok tt)
    ⊎ ((r ≡ err (handle_request socket_broken))
        ⊎ ((r ≡ err (handle_request disconnected)) ⊎ (r ≡ err (handle_request partial_message))))

serve-joined_iff :
    (started r : Result (Unit {0}) DaemonError)
    → (serve started (some (joined r)) ≡ ok tt) ↔ ((started ≡ ok tt) × EndsWell r)
unfolding serve wait after_join expected
serve-joined_iff (err e) r = (λ q. cc, λ (p, s). cc)
serve-joined_iff (ok started) (ok done) = (λ q. (refl, inl refl), λ p. refl)
serve-joined_iff (ok started) (err (handle_request socket_broken)) =
    (λ q. (refl, inr (inl refl)), λ p. refl)
serve-joined_iff (ok started) (err (handle_request disconnected)) =
    (λ q. (refl, inr (inr (inl refl))), λ p. refl)
serve-joined_iff (ok started) (err (handle_request partial_message)) =
    (λ q. (refl, inr (inr (inr refl))), λ p. refl)
serve-joined_iff (ok started) (err (new_vhost_user_handler n)) =
    (λ q. cc, λ (p, s). not_these _ (λ q. cc) (λ q. cc) (λ q. cc) (λ q. cc) s)
serve-joined_iff (ok started) (err (create_backend_listener n)) =
    (λ q. cc, λ (p, s). not_these _ (λ q. cc) (λ q. cc) (λ q. cc) (λ q. cc) s)
serve-joined_iff (ok started) (err (create_backend_req_handler n)) =
    (λ q. cc, λ (p, s). not_these _ (λ q. cc) (λ q. cc) (λ q. cc) (λ q. cc) s)
serve-joined_iff (ok started) (err (create_vhost_user_listener n)) =
    (λ q. cc, λ (p, s). not_these _ (λ q. cc) (λ q. cc) (λ q. cc) (λ q. cc) s)
serve-joined_iff (ok started) (err (start_daemon n)) =
    (λ q. cc, λ (p, s). not_these _ (λ q. cc) (λ q. cc) (λ q. cc) (λ q. cc) s)
serve-joined_iff (ok started) (err wait_daemon) =
    (λ q. cc, λ (p, s). not_these _ (λ q. cc) (λ q. cc) (λ q. cc) (λ q. cc) s)
serve-joined_iff (ok started) (err (handle_request (other n))) =
    (λ q. cc, λ (p, s). not_these _ (λ q. cc) (λ q. cc) (λ q. cc) (λ q. cc) s)

-- A served connection ends well exactly if it was started, and there is no thread to wait for, or
-- the thread did not panic and ended without an error or because the front-end broke the socket,
-- disconnected or left a message half sent.
pub serve_iff :
    (started : Result (Unit {0}) DaemonError) (thread : Option Join)
    → (serve started thread ≡ ok tt) ↔ (
        (started ≡ ok tt)
        × ((thread ≡ none)
            ⊎ ((r : Result (Unit {0}) DaemonError) × (thread ≡ some (joined r)) × EndsWell r)))
unfolding serve wait expected
serve_iff (err e) thread = (λ q. cc, λ (p, s). cc)
serve_iff (ok started) none = (λ q. (refl, inl refl), λ p. refl)
serve_iff (ok started) (some panicked) =
    (λ q. cc, λ (p, s). elim s [ inl n ↦ cc | inr (r, e, well) ↦ cc ])
serve_iff (ok started) (some (joined r)) =
    let (there, back) = serve-joined_iff (ok started) r in
    (
      λ q. let (p, well) = there q in (p, inr (r, refl, well)),
      λ (p, s). elim s [
        | inl n ↦ cc
        | inr (r', e, well) ↦ back (p, subst EndsWell (let same : r' ≡ r = cc in same) well)
      ],
    )

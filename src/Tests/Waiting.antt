-- ===== src/Tests/Waiting.antt =====
-- An interrupted wait for two events, and the end of a connection.
use virtio_device_poc.Base.{
  ℕ, ◌≡◌, none, ◌↔◌, ◌⊎◌, some, ok, err, Result, List, [], ◌∷◌, ◌++◌, map, replicate, arith,
}
use virtio_device_poc.Event.Token.{u16_token}
use virtio_device_poc.Event.Manager.{
  EventSets, ready, interrupted, wait_timeout, event_of, delivered, wait_timeout-tokens,
}
use virtio_device_poc.Event.Derive.Laws.{uint_token-IsLawful}
use virtio_device_poc.VhostUser.Daemon.{
  EndsWell, DaemonError, joined, handle_request, disconnected, serve, serve_iff,
}

abbrev linux : EventSets
linux = record { all = 0xffffffff; in_set = 1; out_set = 4; hang_up = 16; read_hang_up = 0x2000 }

abbrev two_events : List (ℕ × ℕ)
two_events = (1, 7) ∷ (17, 9) ∷ []

wait_timeout-tokens_example :
    wait_timeout linux u16_token
      (replicate 2 interrupted ++ ready (delivered linux u16_token two_events) ∷ [])
    ≡ some (some (ok (map (λ (p : ℕ × ℕ). event_of linux u16_token p.0 p.1) two_events)))
wait_timeout-tokens_example =
    wait_timeout-tokens linux u16_token (uint_token-IsLawful 16 (omega arith)) 2 two_events []
      (omega arith, (omega arith, tt))

abbrev hung_up : Result (Unit {0}) DaemonError
hung_up = err (handle_request disconnected)

serve_iff_example : (serve (ok tt) (some (joined hung_up)) ≡ ok tt) ↔ (
    (let r : Result (Unit {0}) DaemonError = ok tt in r ≡ ok tt)
    × ((some (joined hung_up) ≡ none)
        ⊎ ((r : Result (Unit {0}) DaemonError) × (some (joined hung_up) ≡ some (joined r))
            × EndsWell r)))
serve_iff_example = serve_iff (ok tt) (some (joined hung_up))

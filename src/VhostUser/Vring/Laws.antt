-- ===== src/VhostUser/Vring/Laws.antt =====
-- Start, stop and a change of the kick descriptor: the worker's epoll instances watch it exactly
-- while the ring is started. (vhost-user/src/vring.rs)
use virtio_device_poc.Base.{
  ℕ, ◌≡◌, refl, sym, ap, inl, inr, true, false, Option, none, some, List, [], ◌∷◌, ok, Bool-cases,
  ℕ_discrete, subst,
}
use mathlib.Core.Option.{some-injective}
use virtio_device_poc.VhostUser.Host.{Host, EpollLaws, QueueLaws}
use virtio_device_poc.VhostUser.Vring.{
  Vring, World, IoResult, is_started, start, stop_with, stop_after, stop, set_kick,
}
use virtio_device_poc.VhostUser.Vring.Epolls.{
  AllEntries, IsDistinct, CanMoveAt, IsMovedAt, update_epolls_lem,
}
use virtio_device_poc.VhostUser.Vring.Tracked.{
  IsWatching, IsTracked, IsTracked-of, IsFreshFor, map_entries, can_start, did_start, can_stop,
  did_stop, can_set_kick, did_set_kick,
}

module _ (h : Host) (laws : EpollLaws h) (queues : QueueLaws h) where
  open h use {Epoll, watched, ready, set_ready}

  -- Starting a stopped ring succeeds, and then each live instance watches the kick.
  pub start-IsTracked :
      (v : Vring h) (w : World h)
      → IsTracked h laws queues v w
      → is_started h v ≡ false
      → ((start h v w).2 ≡ ok tt)
        × (is_started h (start h v w).0 ≡ true)
        × IsTracked h laws queues (start h v w).0 (start h v w).1
  unfolding start is_started
  start-IsTracked v w t stopped =
      let before =
        subst (λ b. AllEntries (IsWatching h laws queues b v.kick w) v.epolls) stopped t.watching in
      let moves = update_epolls_lem h laws w none v.kick v.epolls t.distinct (
        map_entries h laws queues (IsWatching h laws queues false v.kick w)
          (CanMoveAt h laws w none v.kick) v.epolls (can_start h laws queues v.kick w w) before) in
      let started = queues.ready-set_ready v.queue true in
      let after =
        map_entries h laws queues (IsMovedAt h laws w moves.after none v.kick)
          (IsWatching h laws queues true v.kick moves.after) v.epolls
          (did_start h laws queues v.kick w moves.after) moves.listed in
      rw moves.returns (
        refl,
        started,
        record {
          distinct = t.distinct;
          watching =
              subst (λ b. AllEntries (IsWatching h laws queues b v.kick moves.after) v.epolls)
                (sym started) after;
        },
      )

  record IsStopped (k : Option ℕ) (v : Vring h) (r : Vring h × World h × IoResult h (Unit {0}))
      : Type 0 where
    returns : r.2 ≡ ok tt
    not_ready : ready r.0.queue ≡ false
    same_kick : r.0.kick ≡ v.kick
    same_epolls : r.0.epolls ≡ v.epolls
    unwatched : AllEntries (IsWatching h laws queues false k r.1) v.epolls

  stop_with_lem :
      (k : Option ℕ) (v : Vring h) (w : World h)
      → IsDistinct v.epolls
      → AllEntries (IsWatching h laws queues true k w) v.epolls
      → IsStopped k v (stop_with h k v w)
  unfolding stop_with
  stop_with_lem none v w d before = record {
    returns = refl;
    not_ready = queues.ready-set_ready v.queue false;
    same_kick = refl;
    same_epolls = refl;
    unwatched =
        map_entries h laws queues (IsWatching h laws queues true none w)
          (IsWatching h laws queues false none w) v.epolls (λ id token b e live fd q. cc) before;
  }
  stop_with_lem (some k) v w d before =
      let moves = update_epolls_lem h laws w (some k) none v.epolls d (
        map_entries h laws queues (IsWatching h laws queues true (some k) w)
          (CanMoveAt h laws w (some k) none) v.epolls (can_stop h laws queues (some k) w w)
          before) in
      let after =
        map_entries h laws queues (IsMovedAt h laws w moves.after (some k) none)
          (IsWatching h laws queues false (some k) moves.after) v.epolls
          (did_stop h laws queues (some k) w moves.after) moves.listed in
      subst (IsStopped (some k) v) (ap (stop_after h v) (sym moves.returns)) (record {
        returns = refl;
        not_ready = queues.ready-set_ready v.queue false;
        same_kick = refl;
        same_epolls = refl;
        unwatched = after;
      })

  -- Stopping a started ring succeeds, and then no live instance watches the kick.
  pub stop-IsTracked :
      (v : Vring h) (w : World h)
      → IsTracked h laws queues v w
      → is_started h v ≡ true
      → ((stop h v w).2 ≡ ok tt)
        × (is_started h (stop h v w).0 ≡ false)
        × IsTracked h laws queues (stop h v w).0 (stop h v w).1
  unfolding stop is_started
  stop-IsTracked v w t started =
      let before =
        subst (λ b. AllEntries (IsWatching h laws queues b v.kick w) v.epolls) started t.watching in
      let s = stop_with_lem v.kick v w t.distinct before in
      (
        s.returns,
        s.not_ready,
        IsTracked-of h laws queues (stop_with h v.kick v w).0 (stop_with h v.kick v w).1 false
            v.kick v.epolls s.not_ready s.same_kick s.same_epolls t.distinct s.unwatched,
      )

  -- Stopping a started ring leaves none of its live instances watching its kick.
  pub stop-unwatches :
      (v : Vring h) (w : World h)
      → IsTracked h laws queues v w
      → is_started h v ≡ true
      → AllEntries (IsWatching h laws queues false v.kick (stop h v w).1) v.epolls
  unfolding stop is_started
  stop-unwatches v w t started =
      let before =
        subst (λ b. AllEntries (IsWatching h laws queues b v.kick w) v.epolls) started t.watching in
      (stop_with_lem v.kick v w t.distinct before).unwatched

  pub set_kick-world :
      (v : Vring h) (w : World h) (file : Option ℕ)
      → is_started h v ≡ false
      → (set_kick h v w file).1 ≡ w
  unfolding set_kick is_started
  set_kick-world v w file stopped = rw (stopped, set_kick) refl

  did_not_start :
      (kick file : Option ℕ) (w : World h) (id token : ℕ)
      → IsWatching h laws queues false kick w id token
        × IsFreshFor h laws queues kick w w file id token
      → IsWatching h laws queues false file w id token
  did_not_start none file w id token c e live fd q = c.1 e live fd q (λ r. cc)
  did_not_start (some old) file w id token c e live fd q = elim (ℕ_discrete old fd) [
    | yes same ↦ c.0 e live fd (ap some same)
    | no ne ↦ c.1 e live fd q (λ r. ne (some-injective old fd r))
  ]

  pair_entries :
      (P Q : ℕ → ℕ → Type 0) (l : List (ℕ × ℕ))
      → AllEntries P l
      → AllEntries Q l
      → AllEntries (λ id token. P id token × Q id token) l
  pair_entries P Q [] p q = tt
  pair_entries P Q ((id, token) ∷ rest) p q = ((p.0, q.0), pair_entries P Q rest p.1 q.1)

  -- Replacing the kick succeeds, started or stopped: a started ring's instances watch the new
  -- descriptor and no longer the old one, a stopped ring's watch neither.
  pub set_kick-IsTracked :
      (v : Vring h) (w : World h) (file : Option ℕ)
      → IsTracked h laws queues v w
      → AllEntries (IsFreshFor h laws queues v.kick w w file) v.epolls
      → ((set_kick h v w file).2 ≡ ok tt)
        × ((set_kick h v w file).0.kick ≡ file)
        × IsTracked h laws queues (set_kick h v w file).0 (set_kick h v w file).1
  unfolding set_kick is_started
  set_kick-IsTracked v w file t fresh = elim (Bool-cases (ready v.queue)) [
    | inl started ↦
        let before =
          subst (λ b. AllEntries (IsWatching h laws queues b v.kick w) v.epolls) started
            t.watching in
        let moves = update_epolls_lem h laws w v.kick file v.epolls t.distinct (
          map_entries h laws queues
            (λ id token.
              IsWatching h laws queues true v.kick w id token
              × IsFreshFor h laws queues v.kick w w file id token)
            (CanMoveAt h laws w v.kick file) v.epolls (can_set_kick h laws queues v.kick w w file)
            (pair_entries (IsWatching h laws queues true v.kick w)
              (IsFreshFor h laws queues v.kick w w file) v.epolls before fresh)) in
        let after =
          map_entries h laws queues (IsMovedAt h laws w moves.after v.kick file)
            (IsWatching h laws queues true file moves.after) v.epolls
            (did_set_kick h laws queues v.kick w moves.after file) moves.listed in
        rw started (
          rw moves.returns (
            refl,
            refl,
            record {
              distinct = t.distinct;
              watching =
                  subst (λ b. AllEntries (IsWatching h laws queues b file moves.after) v.epolls)
                    (sym started) after;
            },
          ))
    | inr stopped ↦
        let before =
          subst (λ b. AllEntries (IsWatching h laws queues b v.kick w) v.epolls) stopped
            t.watching in
        let after =
          map_entries h laws queues
            (λ id token.
              IsWatching h laws queues false v.kick w id token
              × IsFreshFor h laws queues v.kick w w file id token)
            (IsWatching h laws queues false file w) v.epolls (did_not_start v.kick file w)
            (pair_entries (IsWatching h laws queues false v.kick w)
              (IsFreshFor h laws queues v.kick w w file) v.epolls before fresh) in
        rw stopped (
          refl,
          refl,
          record {
            distinct = t.distinct;
            watching =
                subst (λ b. AllEntries (IsWatching h laws queues b file w) v.epolls) (sym stopped)
                  after;
          },
        )
  ]

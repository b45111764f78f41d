-- ===== src/Tests/Rings.antt =====
-- A ring with a kick descriptor and one worker.
use virtio_device_poc.Base.{
  arith, ◌∙◌, ℕ, ◌≡◌, ◌≢◌, refl, sym, ap, inl, Bool, true, false, some, none, ok, [], ◌∷◌, ◌++◌,
  if◌then◌else◌, ◌==◌,
}
use mathlib.Core.Option.{some-injective}
use virtio_device_poc.VhostUser.Vring.{
  Vring, World, is_started, start, stop, register_self, retain_live,
}
use virtio_device_poc.VhostUser.Vring.Tracked.{IsTracked, IsTracked-of}
use virtio_device_poc.VhostUser.Vring.Laws.{start-IsTracked, stop-IsTracked}
use virtio_device_poc.VhostUser.Vring.Register.{register_self-IsTracked}
use virtio_device_poc.Tests.Model.{toy, toy_queues, toy_epolls, new_toy_queue, Watches, watch}

-- The kick is 5; the worker's epoll instance 3 has the token 1.
abbrev pub ring : Bool → Vring toy
ring started = record {
  queue = record (new_toy_queue 16) { is_ready = started };
  enabled = true;
  kick = some 5;
  call = some 6;
  error = none;
  epolls = (3, 1) ∷ [];
}

abbrev pub watches : Bool → Watches
watches started = watch (λ fd. none) 5 (if started then some 1 else none)

abbrev pub world : Bool → World toy
world started = record {
  epoll_at = λ id. if id == 3 then some (watches started) else none;
  events = λ fd. 0;
}

watches_kick :
    (started : Bool) (e : Watches)
    → some (watches started) ≡ some e
    → (fd : ℕ) → some 5 ≡ some fd
    → e fd ≡ (if started then some 1 else none)
watches_kick true e live fd q =
    let same = some-injective (watches true) e live in
    let same_fd = some-injective 5 fd q in
    ap (λ (w : Watches). w fd) (sym same) ∙ ap (watches true) (sym same_fd)
watches_kick false e live fd q =
    let same = some-injective (watches false) e live in
    let same_fd = some-injective 5 fd q in
    ap (λ (w : Watches). w fd) (sym same) ∙ ap (watches false) (sym same_fd)

pub ring-IsTracked :
    (started : Bool) → IsTracked toy toy_epolls toy_queues (ring started) (world started)
ring-IsTracked started =
    IsTracked-of toy toy_epolls toy_queues (ring started) (world started) started (some 5)
      ((3, 1) ∷ []) refl refl refl (tt, tt) (watches_kick started, tt)

start-IsTracked_example :
    let r = start toy (ring false) (world false) in
    (r.2 ≡ ok tt) × (is_started toy r.0 ≡ true) × IsTracked toy toy_epolls toy_queues r.0 r.1
start-IsTracked_example =
    start-IsTracked toy toy_epolls toy_queues (ring false) (world false) (ring-IsTracked false)
      (unfold is_started in refl)

stop-IsTracked_example :
    let r = stop toy (ring true) (world true) in
    (r.2 ≡ ok tt) × (is_started toy r.0 ≡ false) × IsTracked toy toy_epolls toy_queues r.0 r.1
stop-IsTracked_example =
    stop-IsTracked toy toy_epolls toy_queues (ring true) (world true) (ring-IsTracked true)
      (unfold is_started in refl)

pub nine_is_free :
    (started : Bool) (e : Watches)
    → some (watches started) ≡ some e
    → (fd : ℕ) → some 9 ≡ some fd
    → some 5 ≢ some fd
    → e fd ≡ none
nine_is_free true e live fd q r =
    ap (λ (w : Watches). w fd) (sym (some-injective (watches true) e live))
    ∙ ap (watches true) (sym (some-injective 9 fd q))
nine_is_free false e live fd q r =
    ap (λ (w : Watches). w fd) (sym (some-injective (watches false) e live))
    ∙ ap (watches false) (sym (some-injective 9 fd q))

four_is_not : (n : ℕ) → n ≡ 3 → 4 ≢ n
four_is_not n p q = omega arith

register_self-IsTracked_example :
    let r = register_self toy (ring true) (world true) 4 (λ fd. none) 2 in
    (r.2 ≡ ok tt)
    × (r.0.epolls ≡ retain_live toy (world true) (ring true).epolls ++ (4, 2) ∷ [])
    × IsTracked toy toy_epolls toy_queues r.0 r.1
register_self-IsTracked_example =
    register_self-IsTracked toy toy_epolls toy_queues (ring true) (world true) 4 2 (λ fd. none)
      (ring-IsTracked true) (inl (unfold is_started in refl)) (four_is_not 3 refl, tt)
      (λ fd q. refl)

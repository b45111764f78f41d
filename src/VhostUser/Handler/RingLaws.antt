-- ===== src/VhostUser/Handler/RingLaws.antt =====
-- What the requests on a ring do with the ring that they name. (vhost-user/src/handler.rs)
pub mod Stopping
pub mod Starting
use virtio_device_poc.Base.{
  ℕ, ◌≤◌, ◌<◌, ◌≡◌, ◌≢◌, ◌↔◌, inl, inr, refl, sym, ap, ◌∙◌, subst, true, false, not, ◌&&◌, ◌||◌,
  Option, none, some, List, [], ◌∷◌, ok, err, ◌==◌, ltb, arith, length, get_elem?, set,
  get_elem?-lt, get_elem?-some, get_elem?-set_self, get_elem?-set_ne, Option-cases, Bool-cases,
  by_bool, by_result, by_option, zero, suc,
}
use mathlib.Core.Option.{some-injective}
use virtio_device_poc.VhostUser.Host.{Host, EpollLaws, QueueLaws}
use virtio_device_poc.VhostUser.Vring.{
  Vring, World, is_started, has_kick_event, set_kick, set_call, start, stop, stop_with, stop_after,
  update_epolls, IoResult, try_lock_queue,
}
use virtio_device_poc.VhostUser.Vring.Epolls.{AllEntries}
use virtio_device_poc.VhostUser.Vring.Tracked.{IsTracked, IsFreshFor, IsTracked-of}
use virtio_device_poc.VhostUser.Vring.Laws.{start-IsTracked, stop-IsTracked, set_kick-IsTracked}
use virtio_device_poc.VhostUser.Handler.Types.{Reply, reply, Device, VhostUserHandler}
use virtio_device_poc.VhostUser.Handler.Rings.{
  put_vring, activate_device, initialize_vring, set_vring_num, get_vring_base, set_vring_kick,
}

module _ (h : Host) (d : Device h) where
  abbrev pub Handler : Type 0
  Handler = VhostUserHandler h d

  num_test :
      (num max_size : ℕ) → (num == 0 || ltb max_size num) ≡ false ↔ ((0 < num) × (num ≤ max_size))
  num_test num max_size = ground arith

  -- The rings other than `index`.
  abbrev pub KeepsOthers : ℕ → Handler → Handler → Type 0
  KeepsOthers index s t = (j : ℕ) → index ≢ j → get_elem? t.vrings j ≡ get_elem? s.vrings j

  -- In a handler with a ring for each queue, SET_VRING_NUM is answered exactly for a ring that
  -- exists and a size from 1 to the maximum that the device asked for.
  pub set_vring_num_iff :
      (s : Handler) (index num : ℕ)
      → length s.vrings ≡ length s.requested_queues
      → ((set_vring_num h d s index num).1 ≡ reply tt) ↔ (
          (max_size : ℕ) × (get_elem? s.requested_queues index ≡ some max_size)
          × (0 < num)
          × (num ≤ max_size))
  unfolding set_vring_num
  set_vring_num_iff s index num same = elim (Option-cases (get_elem? s.vrings index)) [
    | inl missing ↦
        rw (missing, set_vring_num)
          (
            λ e. cc,
            λ (max_size, listed, low, high).
                let small = get_elem?-some s.requested_queues index max_size listed in
                let (v, found) = get_elem?-lt s.vrings index (omega arith) in cc,
          )
    | inr (v, found) ↦
        let small = get_elem?-some s.vrings index v found in
        let (max_size, listed) = get_elem?-lt s.requested_queues index (omega arith) in
        rw (found, set_vring_num)
          (rw listed (elim (Bool-cases (num == 0 || ltb max_size num)) [
            | inl bad ↦ rw bad (
              λ e. cc,
              λ (m, same_size, low, high).
                  let e = some-injective max_size m same_size in ground arith,
            )
            | inr good ↦
                let bounds : (0 < num) × (num ≤ max_size) = ground arith in
                rw good (λ e. (max_size, refl, bounds.0, bounds.1), λ p. refl)
          ]))
  ]

  pub set_kick-queue :
      (v : Vring h) (w : World h) (file : Option ℕ) → (set_kick h v w file).0.queue ≡ v.queue
  unfolding set_kick
  set_kick-queue v w file =
      by_bool (λ (r : Vring h × World h × IoResult h (Unit {0})). r.0.queue ≡ v.queue)
        (is_started h v) _ _ (λ e. refl) (λ e. refl)

  pub stop_with-queue :
      (k : Option ℕ) (v : Vring h) (w : World h)
      → (stop_with h k v w).2 ≡ ok tt
      → (stop_with h k v w).0.queue ≡ h.set_ready v.queue false
  unfolding stop_with stop_after
  stop_with-queue none v w e = refl
  stop_with-queue (some fd) v w e = after (update_epolls h w (some fd) none v.epolls) e
    where
      after :
          (r : World h × IoResult h (Unit {0}))
          → (stop_after h v r).2 ≡ ok tt
          → (stop_after h v r).0.queue ≡ h.set_ready v.queue false
      after (w', err x) e = cc
      after (w', ok done) e = refl

  pub start-kick : (v : Vring h) (w : World h) → (start h v w).0.kick ≡ v.kick
  unfolding start
  start-kick v w = refl

  pub has_kick : (v : Vring h) (fd : ℕ) → v.kick ≡ some fd → has_kick_event h v ≡ true
  unfolding has_kick_event
  has_kick v fd e = rw e refl

  pub not_locked : (v : Vring h) → is_started h v ≡ false → try_lock_queue h v ≡ none
  unfolding try_lock_queue is_started
  not_locked v off = ground arith

  module _ (laws : EpollLaws h) (queues : QueueLaws h) where
    abbrev pub IsTrackedRing : Vring h → World h → Type 0
    IsTrackedRing = IsTracked h laws queues

    pub all_entries :
        (P : ℕ → ℕ → Type 0) (l : List (ℕ × ℕ)) → ((id token : ℕ) → P id token) → AllEntries P l
    all_entries P [] f = tt
    all_entries P ((id, token) ∷ l) f = (f id token, all_entries P l f)

    -- A ring whose queue, kick and instances are those of a tracked ring is tracked.
    pub tracked_like :
        (v u : Vring h) (w : World h)
        → u.queue ≡ v.queue
        → u.kick ≡ v.kick
        → u.epolls ≡ v.epolls
        → IsTrackedRing v w
        → IsTrackedRing u w
    tracked_like v u w q k e t =
        IsTracked-of h laws queues u w (is_started h v) v.kick v.epolls
          (unfold is_started in ap h.ready q) k e t.distinct t.watching

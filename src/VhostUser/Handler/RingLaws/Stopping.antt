-- ===== src/VhostUser/Handler/RingLaws/Stopping.antt =====
-- GET_VRING_BASE, which stops a ring. (vhost-user/src/handler.rs)
use virtio_device_poc.Base.{
  ℕ, ◌≡◌, refl, sym, ap, ◌∙◌, subst, true, false, none, some, ok, get_elem?, get_elem?-some,
  get_elem?-set_self, get_elem?-set_ne,
}
use virtio_device_poc.VhostUser.Host.{Host, EpollLaws, QueueLaws}
use virtio_device_poc.VhostUser.Vring.{Vring, is_started, set_kick, set_call, stop, try_lock_queue}
use virtio_device_poc.VhostUser.Vring.Epolls.{AllEntries}
use virtio_device_poc.VhostUser.Vring.Tracked.{IsFreshFor, IsWatching}
use virtio_device_poc.VhostUser.Vring.Laws.{
  stop-IsTracked, stop-unwatches, set_kick-IsTracked, set_kick-world,
}
use virtio_device_poc.VhostUser.Handler.Types.{reply, Device, VhostUserHandler}
use virtio_device_poc.VhostUser.Handler.Rings.{put_vring, get_vring_base}
use virtio_device_poc.VhostUser.Handler.RingLaws.{
  KeepsOthers, set_kick-queue, stop_with-queue, not_locked, IsTrackedRing, all_entries,
  tracked_like,
}

module _ (h : Host) (d : Device h) (laws : EpollLaws h) (queues : QueueLaws h) where
  get_vring_base_of :
      (s : VhostUserHandler h d) (index : ℕ) (v : Vring h)
      → get_elem? s.vrings index ≡ some v
      → let stopped = stop h v s.world in
        let unkicked = set_kick h stopped.0 stopped.1 none in
        stopped.2 ≡ ok tt
        → unkicked.2 ≡ ok tt
        → get_vring_base h d s index ≡ (
          record (put_vring h d s index (set_call h unkicked.0 none)) { world = unkicked.1 },
          reply (index, h.next_avail stopped.0.queue),
        )
  unfolding get_vring_base
  get_vring_base_of s index v found e₁ e₂ = rw (found, get_vring_base) (rw e₁ (rw e₂ refl))

  -- GET_VRING_BASE of a started ring is answered with the ring's index and its next available
  -- index. Afterwards the ring is stopped, has no kick and no call descriptor, the worker does
  -- not get its queue, no live epoll instance of the ring watches the kick that it had, and the
  -- other rings are as before.
  pub get_vring_base-stops :
      (s : VhostUserHandler h d) (index : ℕ) (v : Vring h)
      → get_elem? s.vrings index ≡ some v
      → IsTrackedRing h d laws queues v s.world
      → is_started h v ≡ true
      → ((get_vring_base h d s index).1 ≡ reply (index, h.next_avail v.queue))
        × KeepsOthers h d index s (get_vring_base h d s index).0
        × ((v' : Vring h) × (get_elem? (get_vring_base h d s index).0.vrings index ≡ some v')
            × (is_started h v' ≡ false)
            × (v'.kick ≡ none)
            × (v'.call ≡ none)
            × (try_lock_queue h v' ≡ none)
            × IsTrackedRing h d laws queues v' (get_vring_base h d s index).0.world)
        × AllEntries
            (IsWatching h laws queues false v.kick (get_vring_base h d s index).0.world)
            v.epolls
  unfolding set_call is_started stop
  get_vring_base-stops s index v found tracked started =
      let (stops, off, tracked₁) = stop-IsTracked h laws queues v s.world tracked started in
      let (v₁, w₁, r₁) = stop h v s.world in
      let (unkicks, no_kick, tracked₂) = set_kick-IsTracked h laws queues v₁ w₁ none tracked₁ (
        all_entries h d laws queues (IsFreshFor h laws queues v₁.kick w₁ w₁ none) v₁.epolls
          (λ id token e live fd q r. cc)) in
      let v₂ = (set_kick h v₁ w₁ none).0 in
      let off₂ : is_started h v₂ ≡ false = ap h.ready (set_kick-queue h d v₁ w₁ none) ∙ off in
      let next : h.next_avail v₁.queue ≡ h.next_avail v.queue =
        ap h.next_avail (stop_with-queue h d v.kick v s.world stops)
        ∙ queues.next_avail-set_ready v.queue false in
      rw (get_vring_base_of s index v found stops unkicks) (
        ap (λ n. reply (index, n)) next,
        (λ j ne. get_elem?-set_ne s.vrings index j _ ne),
        (
          set_call h v₂ none,
          get_elem?-set_self s.vrings index _ (get_elem?-some s.vrings index v found),
          off₂,
          no_kick,
          refl,
          not_locked h d (set_call h v₂ none) off₂,
          tracked_like h d laws queues v₂ (set_call h v₂ none) _ refl refl refl tracked₂,
        ),
        subst (λ w. AllEntries (IsWatching h laws queues false v.kick w) v.epolls)
            (sym (set_kick-world h laws queues v₁ w₁ none off))
            (stop-unwatches h laws queues v s.world tracked started),
      )

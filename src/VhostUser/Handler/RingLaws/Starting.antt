-- ===== src/VhostUser/Handler/RingLaws/Starting.antt =====
-- SET_VRING_KICK, which starts a ring and may activate the device. (vhost-user/src/handler.rs)
use virtio_device_poc.Base.{
  ℕ, ◌<◌, ◌≡◌, refl, sym, ap, ◌∙◌, subst, Bool, true, false, not, ◌&&◌, Option, none, some, Result,
  err, List, [], ◌∷◌, ok, arith, length, get_elem?, set, get_elem?-some, get_elem?-set_self,
  get_elem?-set_ne, by_bool, by_result, by_option, zero, suc,
}
use virtio_device_poc.VhostUser.Host.{Host, EpollLaws, QueueLaws}
use virtio_device_poc.VhostUser.Vring.{Vring, is_started, has_kick_event, set_kick, start}
use virtio_device_poc.VhostUser.Vring.Epolls.{AllEntries}
use virtio_device_poc.VhostUser.Vring.Tracked.{IsFreshFor}
use virtio_device_poc.VhostUser.Vring.Laws.{start-IsTracked, set_kick-IsTracked}
use virtio_device_poc.VhostUser.Handler.Types.{
  Reply, reply, refuse, panic, backend_internal_error, Device, VhostUserHandler,
}
use virtio_device_poc.VhostUser.Handler.Rings.{
  put_vring, activate_device, initialize_vring, set_vring_kick,
}
use virtio_device_poc.VhostUser.Handler.RingLaws.{
  KeepsOthers, set_kick-queue, start-kick, has_kick, IsTrackedRing,
}

module _ (h : Host) (d : Device h) (laws : EpollLaws h) (queues : QueueLaws h) where
  set_vring_kick_of :
      (s : VhostUserHandler h d) (index : ℕ) (file : Option ℕ) (v : Vring h)
      → get_elem? s.vrings index ≡ some v
      → (set_kick h v s.world file).2 ≡ ok tt
      → set_vring_kick h d s index file
        ≡ initialize_vring h d
            (record (put_vring h d s index (set_kick h v s.world file).0) {
              world = (set_kick h v s.world file).1;
            })
            index
  unfolding set_vring_kick
  set_vring_kick_of s index file v found e = rw (found, set_vring_kick) (rw e refl)

  initialize_vring_of :
      (s : VhostUserHandler h d) (index : ℕ) (v : Vring h)
      → get_elem? s.vrings index ≡ some v
      → is_started h v ≡ false
      → has_kick_event h v ≡ true
      → (start h v s.world).2 ≡ ok tt
      → initialize_vring h d s index
        ≡ activate_device h d
            (record (put_vring h d s index (start h v s.world).0) { world = (start h v s.world).1 })
  unfolding initialize_vring is_started
  initialize_vring_of s index v found off kicked e =
      rw (found, initialize_vring) (rw off (rw kicked (rw e refl)))

  -- The handler keeps what the device's `activate` left, and passes its error on.
  abbrev pub IsAnswered :
      Option (d.State × Result (Unit {0}) ℕ) → VhostUserHandler h d × Reply (Unit {0}) → Type 0
  IsAnswered none r = r.1 ≡ panic
  IsAnswered (some (device, ok done)) r = (r.0.device ≡ device) × (r.1 ≡ reply tt)
  IsAnswered (some (device, err e)) r =
      (r.0.device ≡ device) × (r.1 ≡ refuse backend_internal_error)

  -- A device that was not activated yet is activated, with the rings, if a memory table came; in
  -- the other cases it is left alone.
  abbrev pub IsActivation :
      d.State → h.Mem → Bool → Bool → VhostUserHandler h d × Reply (Unit {0}) → Type 0
  IsActivation device mem true updated r =
      (r.0.device_activated ≡ true) × (r.0.device ≡ device) × (r.1 ≡ reply tt)
  IsActivation device mem false false r =
      (r.0.device_activated ≡ false) × (r.0.device ≡ device) × (r.1 ≡ reply tt)
  IsActivation device mem false true r =
      (r.0.device_activated ≡ true) × IsAnswered (d.activate device mem r.0.vrings) r

  -- Activation changes neither the rings nor the world.
  record IsActivated (s : VhostUserHandler h d) (r : VhostUserHandler h d × Reply (Unit {0}))
      : Type 0 where
    same_vrings : r.0.vrings ≡ s.vrings
    same_world : r.0.world ≡ s.world

  activate_device_lem : (s : VhostUserHandler h d) → IsActivated s (activate_device h d s)
  unfolding activate_device
  activate_device_lem s =
      by_bool (IsActivated s) (not s.device_activated && s.memory_updated) _ _
        (λ e.
          by_option (IsActivated s) (d.activate s.device s.atomic_mem s.vrings) _ _
            (λ n. record { same_vrings = refl; same_world = refl })
            (λ (device, r) n.
              by_result (IsActivated s) r _ _
                (λ done q. record { same_vrings = refl; same_world = refl })
                (λ x q. record { same_vrings = refl; same_world = refl })))
        (λ e. record { same_vrings = refl; same_world = refl })

  activate_device-IsActivation :
      (s : VhostUserHandler h d) (activated updated : Bool)
      → s.device_activated ≡ activated
      → s.memory_updated ≡ updated
      → IsActivation s.device s.atomic_mem activated updated (activate_device h d s)
  unfolding activate_device
  activate_device-IsActivation s true updated p q =
      by_bool (IsActivation s.device s.atomic_mem true updated)
        (not s.device_activated && s.memory_updated) _ _ (λ e. absurd (ground arith))
        (λ e. (p, refl, refl))
  activate_device-IsActivation s false false p q =
      by_bool (IsActivation s.device s.atomic_mem false false)
        (not s.device_activated && s.memory_updated) _ _ (λ e. absurd (ground arith))
        (λ e. (p, refl, refl))
  activate_device-IsActivation s false true p q =
      let R = IsActivation s.device s.atomic_mem false true in
      by_bool R (not s.device_activated && s.memory_updated) _ _
        (λ e.
          by_option R (d.activate s.device s.atomic_mem s.vrings) _ _
            (λ n. (
              refl,
              subst (λ o. IsAnswered o (record s { device_activated = true }, panic)) (sym n) refl,
            ))
            (λ (device, r) n.
              by_result R r _ _
                (λ done k. (
                  refl,
                  subst
                      (λ o.
                        IsAnswered o
                          (record s { device_activated = true; device = device }, reply tt))
                      (sym (n ∙ ap (λ x. some (device, x)) k)) (refl, refl),
                ))
                (λ x k. (
                  refl,
                  subst
                      (λ o. IsAnswered o (
                        record s { device_activated = true; device = device },
                        refuse backend_internal_error,
                      ))
                      (sym (n ∙ ap (λ x. some (device, x)) k)) (refl, refl),
                ))))
        (λ e. absurd (ground arith))

  -- What set_vring_kick-starts states of the result.
  abbrev pub IsStartedWith :
      ℕ → ℕ → VhostUserHandler h d → VhostUserHandler h d × Reply (Unit {0}) → Type 0
  IsStartedWith index fd s r =
      KeepsOthers h d index s r.0
      × IsActivation s.device s.atomic_mem s.device_activated s.memory_updated r
      × ((v' : Vring h) × (get_elem? r.0.vrings index ≡ some v')
          × (is_started h v' ≡ true)
          × (v'.kick ≡ some fd)
          × IsTrackedRing h d laws queues v' r.0.world)

  set_twice : (l : List (Vring h)) (i : ℕ) (x y : Vring h) → set (set l i x) i y ≡ set l i y
  set_twice [] i x y = refl
  set_twice (v ∷ l) zero x y = refl
  set_twice (v ∷ l) (suc i) x y = ap (λ m. v ∷ m) (set_twice l i x y)

  after_activation :
      (s u : VhostUserHandler h d) (index fd : ℕ) (v₁ v₂ : Vring h)
      → index < length s.vrings
      → u.vrings ≡ set (set s.vrings index v₁) index v₂
      → u.device_activated ≡ s.device_activated
      → u.memory_updated ≡ s.memory_updated
      → u.device ≡ s.device
      → u.atomic_mem ≡ s.atomic_mem
      → is_started h v₂ ≡ true
      → v₂.kick ≡ some fd
      → IsTrackedRing h d laws queues v₂ u.world
      → IsStartedWith index fd s (activate_device h d u)
  after_activation s u index fd v₁ v₂ small same a b c m on kick tracked =
      let acts = activate_device_lem u in
      let rings = acts.same_vrings ∙ same ∙ set_twice s.vrings index v₁ v₂ in
      (
        λ j ne. ap (λ l. get_elem? l j) rings ∙ get_elem?-set_ne s.vrings index j v₂ ne,
        subst
            (λ device.
              IsActivation device s.atomic_mem s.device_activated s.memory_updated
                (activate_device h d u))
            c
            (subst
              (λ mem.
                IsActivation u.device mem s.device_activated s.memory_updated
                  (activate_device h d u))
              m (activate_device-IsActivation u s.device_activated s.memory_updated a b)),
        (
          v₂,
          ap (λ l. get_elem? l index) rings ∙ get_elem?-set_self s.vrings index v₂ small,
          on,
          kick,
          subst (IsTrackedRing h d laws queues v₂) (sym acts.same_world) tracked,
        ),
      )

  -- SET_VRING_KICK of a stopped ring with a descriptor that no live instance of the ring watches
  -- yet starts the ring: afterwards it is started with that kick, every live instance watches it
  -- under its token, and the other rings are as before. If the device was not activated yet and a
  -- memory table came, its `activate` is called with the guest memory and the rings, its state is
  -- kept, its error is the answer, and it counts as activated in any case; in the other cases the
  -- device is left alone.
  pub set_vring_kick-starts :
      (s : VhostUserHandler h d) (index fd : ℕ) (v : Vring h)
      → get_elem? s.vrings index ≡ some v
      → IsTrackedRing h d laws queues v s.world
      → is_started h v ≡ false
      → AllEntries (IsFreshFor h laws queues v.kick s.world s.world (some fd)) v.epolls
      → IsStartedWith index fd s (set_vring_kick h d s index (some fd))
  set_vring_kick-starts s index fd v found tracked off fresh =
      let small = get_elem?-some s.vrings index v found in
      let (kicks, kick, tracked₁) =
        set_kick-IsTracked h laws queues v s.world (some fd) tracked fresh in
      let (v₁, w₁, r₁) = set_kick h v s.world (some fd) in
      let off₁ : is_started h v₁ ≡ false =
        unfold is_started in ap h.ready (set_kick-queue h d v s.world (some fd)) ∙ off in
      let t : VhostUserHandler h d = record (put_vring h d s index v₁) { world = w₁ } in
      let (starts, on, tracked₂) = start-IsTracked h laws queues v₁ w₁ tracked₁ off₁ in
      subst (IsStartedWith index fd s)
        (sym (
          set_vring_kick_of s index (some fd) v found kicks
          ∙ initialize_vring_of t index v₁ (get_elem?-set_self s.vrings index v₁ small) off₁
              (has_kick h d v₁ fd kick) starts))
        (after_activation s
          (record (put_vring h d t index (start h v₁ w₁).0) { world = (start h v₁ w₁).1 }) index fd
          v₁ (start h v₁ w₁).0 small refl refl refl refl refl on (start-kick h d v₁ w₁ ∙ kick)
          tracked₂)

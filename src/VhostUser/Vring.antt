-- ===== src/VhostUser/Vring.antt =====
-- A virtqueue that is shared by the vhost-user thread and the device's worker.
-- (vhost-user/src/vring.rs)
pub mod Epolls
pub mod Tracked
pub mod Register
pub mod Laws
use virtio_device_poc.Base.{
  ℕ, ◌≡◌, Bool, true, false, not, ◌&&◌, Option, none, some, List, [], ◌∷◌, ◌++◌, Result, ok, err,
  ◌==◌, if◌then◌else◌, ◌>>=◌,
}
use virtio_device_poc.VhostUser.Host.{Host, got, would_block, failed}

module _ (h : Host) where
  open h use {
    Queue, new_queue, ready, set_ready, try_set_desc_table_address, try_set_avail_ring_address,
    try_set_used_ring_address, Epoll, ctl_add, ctl_delete, Events, event_write, event_read,
  }

  -- `Vring` with its `VringState`. A descriptor stands for its EventFd; the list pairs the raw
  -- descriptor of an epoll instance, for the weak reference, with a token.
  pub record Vring : Type 0 where
    pub queue : Queue
    pub enabled : Bool
    pub kick : Option ℕ
    pub call : Option ℕ
    pub error : Option ℕ
    pub epolls : List (ℕ × ℕ)

  -- The live epoll instances (`Weak::upgrade`), by raw descriptor, and the event counters.
  pub record World : Type 0 where
    pub epoll_at : ℕ → Option Epoll
    pub events : Events

  abbrev pub IoResult : Type 0 → Type 0
  IoResult A = Result A ℕ

  unfoldable pub put_epoll : World → ℕ → Epoll → World
  put_epoll w id e = record w { epoll_at = λ j. if j == id then some e else w.epoll_at j }

  unfoldable pub new : ℕ → Result Vring ℕ
  new max_size = new_queue max_size >>= λ queue. ok (record {
    queue = queue;
    enabled = false;
    kick = none;
    call = none;
    error = none;
    epolls = [];
  })

  -- The addresses are set one after the other; an error leaves the earlier ones set.
  unfoldable pub set_queue_info : Vring → ℕ → ℕ → ℕ → Vring × IoResult (Unit {0})
  set_queue_info v desc_table avail_ring used_ring =
      elim (try_set_desc_table_address v.queue desc_table) [
        | err e ↦ (v, err e)
        | ok q₁ ↦ elim (try_set_avail_ring_address q₁ avail_ring) [
          | err e ↦ (record v { queue = q₁ }, err e)
          | ok q₂ ↦ elim (try_set_used_ring_address q₂ used_ring) [
            | err e ↦ (record v { queue = q₂ }, err e)
            | ok q₃ ↦ (record v { queue = q₃ }, ok tt)
          ]
        ]
      ]

  unfoldable pub is_started : Vring → Bool
  is_started v = ready v.queue

  unfoldable pub set_enabled : Vring → Bool → Vring
  set_enabled v enabled = record v { enabled = enabled }

  unfoldable pub set_call : Vring → Option ℕ → Vring
  set_call v file = record v { call = file }

  unfoldable pub set_err : Vring → Option ℕ → Vring
  set_err v file = record v { error = file }

  unfoldable pub has_kick_event : Vring → Bool
  has_kick_event v = elim v.kick [ none ↦ false | some fd ↦ true ]

  unfoldable pub unregister_kick : Option ℕ → Epoll → IoResult Epoll
  unregister_kick none e = ok e
  unregister_kick (some fd) e = ctl_delete e fd

  unfoldable pub register_kick : Option ℕ → ℕ → Epoll → IoResult Epoll
  register_kick none token e = ok e
  register_kick (some fd) token e = ctl_add e fd token

  -- The body of the loop of `update_epolls`, on one live instance.
  unfoldable pub update_epoll :
      World → Option ℕ → Option ℕ → ℕ → ℕ → Epoll → World × IoResult (Unit {0})
  update_epoll w old new_fd id token e = elim (unregister_kick old e) [
    | err x ↦ (w, err x)
    | ok e₁ ↦ elim (register_kick new_fd token e₁) [
      | err x ↦ (put_epoll w id e₁, err x)
      | ok e₂ ↦ (put_epoll w id e₂, ok tt)
    ]
  ]

  unfoldable pub update_epolls :
      World → Option ℕ → Option ℕ → List (ℕ × ℕ) → World × IoResult (Unit {0})
  update_epolls w old new_fd [] = (w, ok tt)
  update_epolls w old new_fd ((id, token) ∷ rest) = elim (w.epoll_at id) [
    | none ↦ update_epolls w old new_fd rest
    | some e ↦ elim (update_epoll w old new_fd id token e).1 [
      | err x ↦ ((update_epoll w old new_fd id token e).0, err x)
      | ok done ↦ update_epolls (update_epoll w old new_fd id token e).0 old new_fd rest
    ]
  ]

  unfoldable pub stop_after :
      Vring → World × IoResult (Unit {0}) → Vring × World × IoResult (Unit {0})
  stop_after v (w', err x) = (v, w', err x)
  stop_after v (w', ok done) = (record v { queue = set_ready v.queue false }, w', ok tt)

  -- `stop`, on the loaded kick: an error of the update leaves the queue ready.
  unfoldable pub stop_with : Option ℕ → Vring → World → Vring × World × IoResult (Unit {0})
  unfolding stop_after
  stop_with none v w = (record v { queue = set_ready v.queue false }, w, ok tt)
  stop_with (some fd) v w = stop_after v (update_epolls w (some fd) none v.epolls)

  unfoldable pub stop : Vring → World → Vring × World × IoResult (Unit {0})
  unfolding stop_with
  stop v w = stop_with v.kick v w

  unfoldable pub start : Vring → World → Vring × World × IoResult (Unit {0})
  start v w =
      let (w', r) = update_epolls w none v.kick v.epolls in
      (record v { queue = set_ready v.queue true }, w', r)

  unfoldable pub set_kick : Vring → World → Option ℕ → Vring × World × IoResult (Unit {0})
  unfolding is_started
  set_kick v w file =
      let swapped : Vring = record v { kick = file } in
      let (w', r) = update_epolls w v.kick file v.epolls in
      if is_started v then (swapped, w', r) else (swapped, w, ok tt)

  -- `retain` on the live instances.
  unfoldable pub retain_live : World → List (ℕ × ℕ) → List (ℕ × ℕ)
  retain_live w [] = []
  retain_live w ((id, token) ∷ rest) = elim (w.epoll_at id) [
    | none ↦ retain_live w rest
    | some e ↦ (id, token) ∷ retain_live w rest
  ]

  unfoldable pub add_epoll : Vring → World → ℕ → ℕ → Vring
  add_epoll v w id token = record v { epolls = retain_live w v.epolls ++ (id, token) ∷ [] }

  unfoldable pub retain_others : World → ℕ → List (ℕ × ℕ) → List (ℕ × ℕ)
  retain_others w removed [] = []
  retain_others w removed ((id, token) ∷ rest) = elim (w.epoll_at id) [
    | none ↦ retain_others w removed rest
    | some e ↦
        if id == removed
        then retain_others w removed rest
        else (id, token) ∷ retain_others w removed rest
  ]

  unfoldable pub remove_epoll : Vring → World → ℕ → Vring
  remove_epoll v w id = record v { epolls = retain_others w id v.epolls }

  -- `VhostKickEvent::register_self`, called by a holder of the epoll instance `id`.
  unfoldable pub register_self : Vring → World → ℕ → Epoll → ℕ → Vring × World × IoResult (Unit {0})
  register_self v w id e token = elim (register_kick v.kick token e) [
    | err x ↦ (v, w, err x)
    | ok e' ↦ (add_epoll v w id token, put_epoll w id e', ok tt)
  ]

  unfoldable pub unregister_self : Vring → World → ℕ → Epoll → Vring × World × IoResult (Unit {0})
  unregister_self v w id e =
      let removed = remove_epoll v w id in
      elim (unregister_kick v.kick e) [
        | err x ↦ (removed, w, err x)
        | ok e' ↦ (removed, put_epoll w id e', ok tt)
      ]

  -- The guard is the queue itself.
  unfoldable pub try_lock_queue : Vring → Option Queue
  try_lock_queue v =
      if not v.enabled then none else if v.enabled && ready v.queue then some v.queue else none

  unfoldable pub signal_used_queue : Vring → World → World × IoResult (Unit {0})
  signal_used_queue v w = elim v.call [
    | none ↦ (w, ok tt)
    | some fd ↦ elim (event_write w.events fd) [
      | err x ↦ (w, err x)
      | ok events ↦ (record w { events = events }, ok tt)
    ]
  ]

  -- EAGAIN is no error: the queue may be polled without a kick.
  unfoldable pub read_kick : Vring → World → World × IoResult Bool
  read_kick v w = elim v.kick [
    | none ↦ (w, ok v.enabled)
    | some fd ↦ elim (event_read w.events fd).1 [
      | got n ↦ (record w { events = (event_read w.events fd).0 }, ok v.enabled)
      | would_block ↦ (record w { events = (event_read w.events fd).0 }, ok v.enabled)
      | failed x ↦ (record w { events = (event_read w.events fd).0 }, err x)
    ]
  ]

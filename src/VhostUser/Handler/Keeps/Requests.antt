-- ===== src/VhostUser/Handler/Keeps/Requests.antt =====
-- What a request, and a connection, keeps. (vhost-user/src/handler.rs)
use virtio_device_poc.Base.{
  ℕ, ◌≡◌, ap, sym, suc, ok-injective, bind-eq-ok, ◌∙◌, inl, inr, true, List, [], ◌∷◌, length, ok,
  subst,
}
use virtio_device_poc.VhostUser.Host.{Host}
use virtio_device_poc.VhostUser.Vring.{World, Vring, new}
use virtio_device_poc.VhostUser.Handler.Types.{
  Reply, reply, refuse, panic, Device, DeviceLaws, VhostUserHandler, new_handler, new_vrings,
}
use virtio_device_poc.VhostUser.Handler.Dispatch
use virtio_device_poc.VhostUser.Handler.Features
use virtio_device_poc.VhostUser.Handler.Dispatch.{
  Request, Answer, handle, serve, acknowledge, answer_with,
}
use virtio_device_poc.VhostUser.Handler.Keeps.{
  Keeps, IsKept, IsKept-Keeps, is_kept, kept, kept_then, IsOffered,
}
use virtio_device_poc.VhostUser.Handler.Rings.{activate_device}
use virtio_device_poc.VhostUser.Handler.Keeps.Features.{
  zero_is_offered, set_owner-Keeps, reset_owner-Keeps, reset_device-Keeps, set_features-Keeps,
  get_config-Keeps, set_config-Keeps, set_gpu_socket-Keeps, set_protocol_features-Keeps,
}
use virtio_device_poc.VhostUser.Handler.Keeps.Memory.{
  set_mem_table-Keeps, add_mem_region-Keeps, remove_mem_region-Keeps, set_log_base-Keeps,
}
use virtio_device_poc.VhostUser.Handler.Keeps.Rings.{
  set_vring_num-Keeps, set_vring_addr-Keeps, set_vring_base-Keeps, get_vring_base-Keeps,
  set_vring_err-Keeps, set_vring_enable-Keeps, set_vring_kick-Keeps, set_vring_call-Keeps,
}

module _ (h : Host) (d : Device h) (laws : DeviceLaws h d) where
  abbrev Handler : Type 0
  Handler = VhostUserHandler h d

  answer_with-IsKept :
      {A : Type 0} (f : A → Answer) (s : Handler) (r : Handler × Reply A)
      → IsKept h d s r
      → IsKept h d s (answer_with f r)
  answer_with-IsKept f s (t, reply a) k = is_kept h d s t _ (IsKept-Keeps h d s (t, reply a) k)
  answer_with-IsKept f s (t, refuse e) k = is_kept h d s t _ (IsKept-Keeps h d s (t, refuse e) k)
  answer_with-IsKept f s (t, panic) k = is_kept h d s t _ (IsKept-Keeps h d s (t, panic) k)

  pub handle-Keeps : (s : Handler) (r : Request) → IsKept h d s (handle h d s r)
  unfolding handle Features.get_features Features.get_protocol_features Features.get_queue_num
      Features.get_inflight_fd Features.set_inflight_fd Features.get_max_mem_slots
      Features.set_device_state_fd Features.check_device_state
  handle-Keeps s Dispatch.set_owner = answer_with-IsKept _ s _ (set_owner-Keeps h d s)
  handle-Keeps s Dispatch.reset_owner = answer_with-IsKept _ s _ (reset_owner-Keeps h d s)
  handle-Keeps s Dispatch.reset_device = answer_with-IsKept _ s _ (reset_device-Keeps h d laws s)
  handle-Keeps s Dispatch.get_features = kept h d s _
  handle-Keeps s (Dispatch.set_features f) =
      answer_with-IsKept _ s _ (set_features-Keeps h d laws s f)
  handle-Keeps s (Dispatch.set_mem_table ctx files) =
      answer_with-IsKept _ s _ (set_mem_table-Keeps h d s ctx files)
  handle-Keeps s (Dispatch.set_vring_num i n) =
      answer_with-IsKept _ s _ (set_vring_num-Keeps h d s i n)
  handle-Keeps s (Dispatch.set_vring_base i b) =
      answer_with-IsKept _ s _ (set_vring_base-Keeps h d s i b)
  handle-Keeps s (Dispatch.set_vring_addr i a b c) =
      answer_with-IsKept _ s _ (set_vring_addr-Keeps h d s i a b c)
  handle-Keeps s (Dispatch.get_vring_base i) =
      answer_with-IsKept _ s _ (get_vring_base-Keeps h d s i)
  handle-Keeps s (Dispatch.set_vring_kick i f) =
      answer_with-IsKept _ s _ (set_vring_kick-Keeps h d laws s i f)
  handle-Keeps s (Dispatch.set_vring_call i f) =
      answer_with-IsKept _ s _ (set_vring_call-Keeps h d laws s i f)
  handle-Keeps s (Dispatch.set_vring_err i f) =
      answer_with-IsKept _ s _ (set_vring_err-Keeps h d s i f)
  handle-Keeps s Dispatch.get_protocol_features = kept h d s _
  handle-Keeps s (Dispatch.set_protocol_features f) =
      answer_with-IsKept _ s _ (set_protocol_features-Keeps h d s f)
  handle-Keeps s Dispatch.get_queue_num = kept h d s _
  handle-Keeps s (Dispatch.set_vring_enable i e) =
      answer_with-IsKept _ s _ (set_vring_enable-Keeps h d s i e)
  handle-Keeps s (Dispatch.get_config o n) = answer_with-IsKept _ s _ (get_config-Keeps h d s o n)
  handle-Keeps s (Dispatch.set_config o b) =
      answer_with-IsKept _ s _ (set_config-Keeps h d laws s o b)
  handle-Keeps s (Dispatch.set_gpu_socket b) =
      answer_with-IsKept _ s _ (set_gpu_socket-Keeps h d laws s b)
  handle-Keeps s Dispatch.get_inflight_fd = kept h d s _
  handle-Keeps s Dispatch.set_inflight_fd = kept h d s _
  handle-Keeps s Dispatch.get_max_mem_slots = kept h d s _
  handle-Keeps s (Dispatch.add_mem_region r f) =
      answer_with-IsKept _ s _ (add_mem_region-Keeps h d s r f)
  handle-Keeps s (Dispatch.remove_mem_region r) =
      answer_with-IsKept _ s _ (remove_mem_region-Keeps h d s r)
  handle-Keeps s Dispatch.set_device_state_fd = kept h d s _
  handle-Keeps s Dispatch.check_device_state = kept h d s _
  handle-Keeps s (Dispatch.set_log_base f o n) =
      answer_with-IsKept _ s _ (set_log_base-Keeps h d s f o n)

  -- The state that every request preserves: a ring for each queue, acknowledged features that the
  -- device offers, and no activation before the memory table came.
  pub record IsConsistent (s : Handler) : Type 0 where
    pub rings : length s.vrings ≡ length s.requested_queues
    pub offered : IsOffered h d s.acked_features s.device
    pub has_memory : s.device_activated ≡ true → s.memory_updated ≡ true

  Keeps-IsConsistent : (s t : Handler) → Keeps h d s t → IsConsistent s → IsConsistent t
  Keeps-IsConsistent s t k c = record {
    rings = k.same_rings ∙ c.rings ∙ ap length (sym k.same_queues);
    offered = k.stays_offered c.offered;
    has_memory = λ p. elim (k.needs_memory p) [
      | inl before ↦ k.stays_updated (c.has_memory before)
      | inr updated ↦ updated
    ];
  }

  length-new_vrings :
      (qs : List ℕ) (vs : List (Vring h)) → new_vrings h d qs ≡ ok vs → length vs ≡ length qs
  unfolding new_vrings
  length-new_vrings [] vs e = ap length (sym (ok-injective [] vs e))
  length-new_vrings (q ∷ qs) vs e =
      let first = bind-eq-ok (new h q) _ vs e in
      let rest = bind-eq-ok (new_vrings h d qs) _ vs first.2 in
      ap length (sym (ok-injective (first.0 ∷ rest.0) vs rest.2))
      ∙ ap suc (length-new_vrings qs rest.0 rest.1)

  unless_panic :
      (s t u : Handler) (r : Reply Answer)
      → Keeps h d s t
      → Keeps h d t u
      → Keeps h d s (elim r [ panic ↦ t | _ ↦ u ])
  unless_panic s t u panic a b = a
  unless_panic s t u (reply x) a b = kept_then h d s t u a b
  unless_panic s t u (refuse x) a b = kept_then h d s t u a b

  serve-Keeps : (s : Handler) (rs : List Request) → Keeps h d s (serve h d s rs)
  unfolding serve
  serve-Keeps s [] =
      let r : Handler × Reply Answer = (s, panic) in IsKept-Keeps h d s r (kept h d s panic)
  serve-Keeps s (r ∷ rs) =
      unless_panic s _ _ (handle h d s r).1 (IsKept-Keeps h d s (handle h d s r) (handle-Keeps s r))
        (serve-Keeps (handle h d s r).0 rs)

  -- Whatever requests a front-end sends to a new handler, in whatever order and whatever they
  -- answer, the handler keeps a ring for each queue, has acknowledged only features that the
  -- device offers, and has not activated the device before a memory table came.
  pub serve-IsConsistent :
      (device : d.State) (mem : h.Mem) (world : World h) (s : Handler) (rs : List Request)
      → new_handler h d device mem world ≡ ok s
      → IsConsistent (serve h d s rs)
  unfolding new_handler
  serve-IsConsistent device mem world s rs e =
      let made = bind-eq-ok (new_vrings h d (d.queues device)) _ s e in
      Keeps-IsConsistent s (serve h d s rs) (serve-Keeps s rs) (
        subst IsConsistent (ok-injective _ s made.2) (record {
          rings = length-new_vrings (d.queues device) made.0 made.1;
          offered = zero_is_offered _;
          has_memory = λ p. cc;
        }))

  -- Once the device is activated it stays so: no later request, RESET_DEVICE included, makes the
  -- handler activate it again.
  pub serve-activated :
      (s : Handler) (rs : List Request)
      → s.device_activated ≡ true
      → ((serve h d s rs).device_activated ≡ true)
        × (activate_device h d (serve h d s rs) ≡ (serve h d s rs, reply tt))
  unfolding activate_device
  serve-activated s rs p = let stays = (serve-Keeps s rs).stays_activated p in (stays, rw stays)

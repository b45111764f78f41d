-- ===== src/Gpu/Worker/Queues/Kicked.antt =====
-- What the worker does once a queue was kicked.
use virtio_device_poc.Base.{
  ℕ, suc, ◌+◌, ◌<◌, ◌≡◌, refl, ap, ◌∙◌, Bool, true, false, ◌&&◌, Option, some, List, [], ◌++◌,
  length, if◌then◌else◌, arith, Bool-cases, inl, inr, subst,
}
use virtio_device_poc.Gpu.Queue.{QueueApi, QueueLaws}
use virtio_device_poc.Gpu.Fences.Waiting.{Splits}
use virtio_device_poc.Gpu.Interface.{VirtioGpu, HoldLaws}
use virtio_device_poc.Gpu.Protocol.Commands.{CommandType}
use virtio_device_poc.Gpu.Protocol.Responses.{ResponseType, WriterApi}
use virtio_device_poc.Gpu.Worker.{WorkerApi}
use virtio_device_poc.Gpu.Worker.Queues.{
  done, ◌>>=◌, ChainApi, process_queue, notify_guest, event_idx_loop, process_kicked,
  handle_queue_event,
}
use virtio_device_poc.Gpu.Worker.Queues.Settled.{Ends, Ends-bind, or_panic-bind, or_panic-Ends}
use virtio_device_poc.Gpu.Worker.Queues.Settling.{Settles, process_queue-Settles, is_cons, heads}

module _ (a : WorkerApi) (v : VirtioGpu) (q : QueueApi) (w : WriterApi) (c : ChainApi q w)
    (commands : CommandType → ℕ) (responses : ResponseType → ℕ) (holds : HoldLaws v)
    (laws : QueueLaws q) where
  open holds use {held}
  open laws use {used, waiting, notified}

  -- Each chain that waited is returned or held, and the guest is notified of the returned ones if
  -- the flag says so.
  pub record Handles (loud : Bool) (gpu : v.Gpu) (queue : q.Queue) (r : v.Gpu × q.Queue)
      : Type 0 where
    pub returned : List ℕ
    pub kept : List ℕ
    pub splits : Splits returned kept (waiting queue)
    pub returned_used : heads (used r.1) ≡ heads (used queue) ++ returned
    pub kept_held : held r.0 ≡ held gpu ++ kept
    pub none_waits : waiting r.1 ≡ []
    pub notifies : notified r.1 ≡ notified queue + (if loud && is_cons returned then 1 else 0)

  Tells : Bool → q.Queue → q.Queue → Type 0
  Tells notify before after =
      (used after ≡ used before)
      × (waiting after ≡ waiting before)
      × (notified after ≡ notified before + (if notify then 1 else 0))

  notify_guest-Tells :
      (notify : Bool) (queue : q.Queue)
      → Ends (Tells notify queue) (notify_guest a v q w c commands responses notify queue)
  unfolding notify_guest Tells
  notify_guest-Tells true queue =
      or_panic-Ends (Tells true queue) (q.signal_used_queue queue) (laws.signal_some queue)
  notify_guest-Tells false queue = (refl, refl, omega arith)

  event_idx_loop-Handles :
      (fuel : ℕ) (gpu : v.Gpu) (queue : q.Queue)
      → length (waiting queue) < fuel
      → Ends
          (Handles true gpu queue)
          (event_idx_loop a v q w c commands responses (suc fuel) gpu queue)
  unfolding event_idx_loop Tells
  event_idx_loop-Handles fuel gpu queue few =
      or_panic-bind (Handles true gpu queue) (q.disable_notification queue) _ λ disabled e.
        let (us, wa, quiet) = laws.disable_some queue disabled e in
        let few' : length (waiting disabled) < fuel = let l = ap length wa in omega arith in
        Ends-bind
          (Settles a v q w c commands responses holds laws gpu disabled false (waiting disabled))
          (Handles true gpu queue)
          (process_queue a v q w c commands responses fuel gpu disabled false) _
          (process_queue-Settles a v q w c commands responses holds laws fuel gpu disabled false
            few')
          λ (gpu', processed, notify) s.
            Ends-bind (Tells notify processed) (Handles true gpu queue)
              (notify_guest a v q w c commands responses notify processed) _
              (notify_guest-Tells notify processed)
              λ told (us', wa', count).
                or_panic-bind (Handles true gpu queue) (q.enable_notification told) _
                  λ (enabled, more) e'.
                    let (us'', wa'', quiet', idle) = laws.enable_some told enabled more e' in
                    rw (idle (wa' ∙ s.none_waits)) (record {
                      returned = s.returned;
                      kept = s.kept;
                      splits = subst (Splits s.returned s.kept) wa s.splits;
                      returned_used =
                          ap heads (us'' ∙ us')
                          ∙ s.returned_used
                          ∙ ap (λ l. heads l ++ s.returned) us;
                      kept_held = s.kept_held;
                      none_waits = wa'' ∙ wa' ∙ s.none_waits;
                      notifies =
                          quiet'
                          ∙ count
                          ∙ ap (λ n. n + (if notify then 1 else 0)) (s.notified_same ∙ quiet)
                          ∙ ap (λ (b : Bool). notified queue + (if b then 1 else 0)) s.signals;
                    })

  -- Without EVENT_IDX the answer of the loop is dropped.
  once-Handles :
      (fuel : ℕ) (gpu : v.Gpu) (queue : q.Queue)
      → length (waiting queue) < fuel
      → Ends (Handles false gpu queue) (
          process_queue a v q w c commands responses fuel gpu queue false
          >>= λ (gpu', queue', notify). done (gpu', queue'))
  once-Handles fuel gpu queue few =
      Ends-bind (Settles a v q w c commands responses holds laws gpu queue false (waiting queue))
        (Handles false gpu queue) (process_queue a v q w c commands responses fuel gpu queue false)
        _ (process_queue-Settles a v q w c commands responses holds laws fuel gpu queue false few)
        λ (gpu', queue', notify) s. record {
          returned = s.returned;
          kept = s.kept;
          splits = s.splits;
          returned_used = s.returned_used;
          kept_held = s.kept_held;
          none_waits = s.none_waits;
          notifies = s.notified_same ∙ omega arith;
        }

  process_kicked-Handles :
      (fuel : ℕ) (gpu : v.Gpu) (queue : q.Queue)
      → length (waiting queue) < fuel
      → Ends
          (Handles (q.event_idx_enabled queue) gpu queue)
          (process_kicked a v q w c commands responses (suc fuel) gpu queue)
  unfolding process_kicked
  process_kicked-Handles fuel gpu queue few = elim (Bool-cases (q.event_idx_enabled queue)) [
    | inl on ↦ rw on (event_idx_loop-Handles fuel gpu queue few)
    | inr off ↦ rw off (once-Handles (suc fuel) gpu queue (omega arith))
  ]

  -- What a kick of an enabled and ready ring does, while the guest adds no chain, with as
  -- much fuel as chains wait, and two more: it panics or fails, or each waiting chain was, in
  -- order, either returned or held by a fence, none waits any longer, and the guest was notified:
  -- with EVENT_IDX once if a chain was returned, and without EVENT_IDX never.
  pub handle_queue_event-Handles :
      (fuel : ℕ) (gpu : v.Gpu) (queue : q.Queue)
      → length (waiting queue) < fuel
      → Ends
          (λ (r : v.Gpu × Option q.Queue).
            (queue' : q.Queue) × (r.1 ≡ some queue')
            × Handles (q.event_idx_enabled queue) gpu queue (r.0, queue'))
          (handle_queue_event a v q w c commands responses (suc fuel) gpu (some true) (some queue))
  unfolding handle_queue_event
  handle_queue_event-Handles fuel gpu queue few =
      Ends-bind (Handles (q.event_idx_enabled queue) gpu queue) _
        (process_kicked a v q w c commands responses (suc fuel) gpu queue) _
        (process_kicked-Handles fuel gpu queue few) λ (gpu', queue') h. (queue', refl, h)

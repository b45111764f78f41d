-- ===== src/Gpu/Worker/Queues.antt =====
-- The chains of a queue, and what becomes of each. (device/virtio-gpu/src/worker.rs)
pub mod Settled
pub mod Chains
pub mod Settling
pub mod Kicked
use virtio_device_poc.Base.{
  ℕ, zero, suc, ◌+◌, ◌≡◌, Bool, true, false, not, ◌||◌, Option, none, some, List, [], ◌∷◌, ◌++◌,
  Result, ok, err, ◌==◌, if◌then◌else◌, bit_and,
}
use virtio_device_poc.Gpu.Queue.{QueueApi}
use virtio_device_poc.Gpu.Fences.{RutabagaFence, virtio_gpu_flag_fence, ring_of}
use virtio_device_poc.Gpu.Interface.{VirtioGpu}
use virtio_device_poc.Gpu.Protocol.Structs.{VirtioGpuCtrlHdr}
use virtio_device_poc.Gpu.Protocol.Commands.{CommandType, GpuCommand, GpuCommandDecodeError, decode}
use virtio_device_poc.Gpu.Protocol.Responses.{
  GpuResponse, err_unspec, GpuResponseEncodeError, VirtioGpuResult, ResponseType, WriterApi, encode,
}
use virtio_device_poc.Gpu.Worker.{WorkerApi, process_gpu_command}

pub data WorkerError : Type 0 where
  create_reader create_writer queue_add_used read_kick_failed : WorkerError
  gpu_response_encode : GpuResponseEncodeError → WorkerError

pub data Outcome (A : Type 0) : Type 0 where
  done : A → Outcome A
  failed : WorkerError → Outcome A
  panicked : Outcome A
  out_of_fuel : Outcome A

infixl 5 ◌>>=◌
abbrev pub ◌>>=◌ : {A B : Type 0} → Outcome A → (A → Outcome B) → Outcome B
done a >>= f = f a
failed e >>= f = failed e
panicked >>= f = panicked
out_of_fuel >>= f = out_of_fuel

-- `map_err(..)?`, and `unwrap()`.
abbrev pub or_fail : {A : Type 0} → WorkerError → Option A → Outcome A
or_fail e none = failed e
or_fail e (some a) = done a

abbrev pub or_panic : {A : Type 0} → Option A → Outcome A
or_panic none = panicked
or_panic (some a) = done a

abbrev pub response_of : VirtioGpuResult → GpuResponse
response_of (ok response) = response
response_of (err response) = response

-- The fence that the header asks for; all zero without one.
unfoldable pub fence_of : Option VirtioGpuCtrlHdr → RutabagaFence
fence_of none = record { flags = 0; fence_id = 0; ctx_id = 0; ring_idx = 0 }
fence_of (some hdr) =
    if bit_and hdr.flags virtio_gpu_flag_fence == 0
    then record { flags = 0; fence_id = 0; ctx_id = 0; ring_idx = 0 }
    else record {
      flags = hdr.flags;
      fence_id = hdr.fence_id;
      ctx_id = hdr.ctx_id;
      ring_idx = hdr.ring_idx;
    }

abbrev pub is_fenced : RutabagaFence → Bool
is_fenced fence = not (bit_and fence.flags virtio_gpu_flag_fence == 0)

-- The reader and the writer of a chain; `none` is an error.
pub record ChainApi (q : QueueApi) (w : WriterApi) : Type 0 where
  pub reader : q.Chain → Option (List ℕ)
  pub writer : q.Chain → Option w.Writer

module _ (a : WorkerApi) (v : VirtioGpu) (q : QueueApi) (w : WriterApi) (c : ChainApi q w)
    (commands : CommandType → ℕ) (responses : ResponseType → ℕ) where
  -- The response to what was read, and the header of a command that was understood.
  unfoldable pub dispatch : v.Gpu → List ℕ → Outcome (v.Gpu × GpuResponse × Option VirtioGpuCtrlHdr)
  dispatch gpu bytes = elim (decode commands bytes) [
    | err e ↦ done (gpu, err_unspec, none)
    | ok (hdr, cmd) ↦ elim (process_gpu_command a v gpu hdr cmd) [
      | none ↦ panicked
      | some (gpu', result) ↦ done (gpu', response_of result, some hdr)
    ]
  ]

  unfoldable pub create_fence : v.Gpu → RutabagaFence → GpuResponse → v.Gpu × GpuResponse
  create_fence gpu fence response =
      let (gpu', result) = v.create_fence gpu fence in
      if is_fenced fence
      then (gpu', elim result [ ok r ↦ response | err fence_response ↦ fence_response ])
      else (gpu, response)

  unfoldable pub encode_response : RutabagaFence → GpuResponse → w.Writer → Outcome (w.Writer × ℕ)
  encode_response fence response writer =
      elim (encode responses w response fence.flags fence.fence_id fence.ctx_id fence.ring_idx
        writer) [
          | none ↦ panicked
          | some (err e) ↦ failed (gpu_response_encode e)
          | some (ok (writer', len)) ↦ done (writer', len)
        ]

  -- A chain that is returned to the used ring, and one that a fence may hold.
  unfoldable pub return_chain : v.Gpu → q.Queue → ℕ → ℕ → Outcome (v.Gpu × q.Queue × Bool)
  return_chain gpu queue head_index len = elim (q.add_used queue head_index len) [
    | none ↦ failed queue_add_used
    | some queue' ↦ done (gpu, queue', true)
  ]

  unfoldable pub hold_chain :
      v.Gpu → q.Queue → ℕ → RutabagaFence → ℕ → Outcome (v.Gpu × q.Queue × Bool)
  unfolding return_chain
  hold_chain gpu queue head_index fence len =
      let ring = ring_of fence.flags fence.ctx_id fence.ring_idx in
      let (gpu', add_to_queue) = v.process_fence gpu ring fence.fence_id head_index len in
      if add_to_queue then return_chain gpu' queue head_index len else done (gpu', queue, false)

  unfoldable pub settle : v.Gpu → q.Queue → ℕ → RutabagaFence → ℕ → Outcome (v.Gpu × q.Queue × Bool)
  unfolding return_chain hold_chain
  settle gpu queue head_index fence len =
      if is_fenced fence
      then hold_chain gpu queue head_index fence len
      else return_chain gpu queue head_index len

  unfoldable pub respond :
      v.Gpu
      → q.Queue
      → ℕ
      → GpuResponse
      → Option VirtioGpuCtrlHdr
      → w.Writer
      → Outcome (v.Gpu × q.Queue × Bool)
  unfolding create_fence encode_response settle
  respond gpu queue head_index response hdr writer =
      let fence = fence_of hdr in
      let (gpu', response') = create_fence gpu fence response in
      encode_response fence response' writer >>= λ (writer', len).
      settle gpu' queue head_index fence len

  unfoldable pub process_queue_chain :
      v.Gpu → q.Queue → ℕ → List ℕ → w.Writer → Outcome (v.Gpu × q.Queue × Bool)
  unfolding dispatch return_chain respond
  process_queue_chain gpu queue head_index bytes writer =
      dispatch gpu bytes >>= λ (gpu', response, hdr).
      if w.available_bytes writer == 0
      then return_chain gpu' queue head_index 0
      else respond gpu' queue head_index response hdr writer

  unfoldable pub process_chain : v.Gpu → q.Queue → q.Chain → Outcome (v.Gpu × q.Queue × Bool)
  unfolding process_queue_chain
  process_chain gpu queue chain = or_fail create_reader (c.reader chain) >>= λ bytes.
      or_fail create_writer (c.writer chain) >>= λ writer.
      process_queue_chain gpu queue (q.head_index chain) bytes writer

  -- `while let Some(desc_chain) = queue.pop_descriptor_chain(mem)`.
  unfoldable pub process_queue : ℕ → v.Gpu → q.Queue → Bool → Outcome (v.Gpu × q.Queue × Bool)
  unfolding process_chain
  process_queue zero gpu queue signal_used_queue = out_of_fuel
  process_queue (suc fuel) gpu queue signal_used_queue = elim (q.pop_descriptor_chain queue) [
    | none ↦ done (gpu, queue, signal_used_queue)
    | some (chain, popped) ↦ process_chain gpu popped chain >>= λ (gpu', queue', used).
        process_queue fuel gpu' queue' (signal_used_queue || used)
  ]

  unfoldable pub notify_guest : Bool → q.Queue → Outcome q.Queue
  notify_guest notify queue = if notify then or_panic (q.signal_used_queue queue) else done queue

  -- The loop of a queue with EVENT_IDX.
  unfoldable pub event_idx_loop : ℕ → v.Gpu → q.Queue → Outcome (v.Gpu × q.Queue)
  unfolding process_queue notify_guest
  event_idx_loop zero gpu queue = out_of_fuel
  event_idx_loop (suc fuel) gpu queue = or_panic (q.disable_notification queue) >>= λ disabled.
      process_queue fuel gpu disabled false >>= λ (gpu', processed, notify).
      notify_guest notify processed >>= λ notified.
      or_panic (q.enable_notification notified) >>= λ (enabled, more). elim more [
        | true ↦ event_idx_loop fuel gpu' enabled
        | false ↦ done (gpu', enabled)
      ]

  unfoldable pub process_kicked : ℕ → v.Gpu → q.Queue → Outcome (v.Gpu × q.Queue)
  unfolding process_queue event_idx_loop
  process_kicked fuel gpu queue =
      if q.event_idx_enabled queue
      then event_idx_loop fuel gpu queue
      else (process_queue fuel gpu queue false >>= λ (gpu', queue', notify). done (gpu', queue'))

  -- `kicked` is what `read_kick` gives, and `locked` what `try_lock_queue` gives: the queue, if the
  -- ring is enabled and ready.
  unfoldable pub handle_queue_event :
      ℕ → v.Gpu → Option Bool → Option q.Queue → Outcome (v.Gpu × Option q.Queue)
  unfolding process_kicked
  handle_queue_event fuel gpu none locked = failed read_kick_failed
  handle_queue_event fuel gpu (some false) locked = done (gpu, locked)
  handle_queue_event fuel gpu (some true) none = done (gpu, none)
  handle_queue_event fuel gpu (some true) (some queue) =
      process_kicked fuel gpu queue >>= λ (gpu', queue'). done (gpu', some queue')

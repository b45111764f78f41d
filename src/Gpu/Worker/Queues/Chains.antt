-- ===== src/Gpu/Worker/Queues/Chains.antt =====
-- Each chain of a queue is returned to the used ring or held by a fence: the loop over the chains.
use virtio_device_poc.Base.{
  ℕ, ◌≡◌, ◌⊎◌, inl, inr, refl, ap, ◌∙◌, Bool, true, false, Option, none, some, List, [], ◌∷◌, ◌++◌,
  ◌==◌, if◌then◌else◌, by_bool, by_option, by_result,
}
use virtio_device_poc.Gpu.Queue.{QueueApi, QueueLaws}
use virtio_device_poc.Gpu.Fences.{RutabagaFence, ring_of}
use virtio_device_poc.Gpu.Interface.{VirtioGpu, HoldLaws}
use virtio_device_poc.Gpu.Protocol.Structs.{VirtioGpuCtrlHdr}
use virtio_device_poc.Gpu.Protocol.Commands.{CommandType, decode}
use virtio_device_poc.Gpu.Protocol.Responses.{GpuResponse, ResponseType, WriterApi, encode}
use virtio_device_poc.Gpu.Worker.{WorkerApi, run_command, process_gpu_command}
use virtio_device_poc.Gpu.Worker.Queues.{
  Outcome, done, panicked, create_reader, create_writer, fence_of, is_fenced, ChainApi, dispatch,
  create_fence, encode_response, return_chain, hold_chain, settle, respond, process_queue_chain,
  process_chain, response_of,
}
use virtio_device_poc.Gpu.Worker.Queues.Settled.{
  Ends, Ends-bind, or_fail-bind, OnSome, Holds, run_command-Holds,
}

module _ (a : WorkerApi) (v : VirtioGpu) (q : QueueApi) (w : WriterApi) (c : ChainApi q w)
    (commands : CommandType → ℕ) (responses : ResponseType → ℕ) (holds : HoldLaws v)
    (laws : QueueLaws q) where
  open holds use {held}
  open laws use {used, waiting, notified}

  -- The queue and the guest are as before, but for one entry of the used ring.
  abbrev pub Returned : v.Gpu → q.Queue → ℕ → v.Gpu × q.Queue × Bool → Type 0
  Returned gpu queue head r =
      (r.2 ≡ true)
      × (held r.0 ≡ held gpu)
      × (len : ℕ) × (used r.1 ≡ used queue ++ (head, len) ∷ [])
      × (waiting r.1 ≡ waiting queue)
      × (notified r.1 ≡ notified queue)

  abbrev pub IsHeld : v.Gpu → q.Queue → ℕ → v.Gpu × q.Queue × Bool → Type 0
  IsHeld gpu queue head r = (r.2 ≡ false) × (held r.0 ≡ held gpu ++ head ∷ []) × (r.1 ≡ queue)

  -- A chain is returned, or held by a fence.
  unfoldable pub SettlesOne : v.Gpu → q.Queue → ℕ → v.Gpu × q.Queue × Bool → Type 0
  SettlesOne gpu queue head r = Returned gpu queue head r ⊎ IsHeld gpu queue head r

  return_chain-SettlesOne :
      (gpu gpu' : v.Gpu) (queue : q.Queue) (head len : ℕ)
      → held gpu' ≡ held gpu
      → Ends
          (SettlesOne gpu queue head)
          (return_chain a v q w c commands responses gpu' queue head len)
  unfolding return_chain SettlesOne
  return_chain-SettlesOne gpu gpu' queue head len same =
      by_option (Ends (SettlesOne gpu queue head)) (q.add_used queue head len) _ _ (λ full. tt)
        (λ queue' e.
          let (u, p, n) = laws.add_used_some queue queue' head len e in
          inl (refl, same, len, u, p, n))

  hold_chain-SettlesOne :
      (gpu gpu' : v.Gpu) (queue : q.Queue) (head : ℕ) (fence : RutabagaFence) (len : ℕ)
      → held gpu' ≡ held gpu
      → Ends
          (SettlesOne gpu queue head)
          (hold_chain a v q w c commands responses gpu' queue head fence len)
  unfolding hold_chain SettlesOne
  hold_chain-SettlesOne gpu gpu' queue head fence len same =
      let ring = ring_of fence.flags fence.ctx_id fence.ring_idx in
      let law = holds.process_fence-held gpu' ring fence.fence_id head len in
      let split = v.process_fence gpu' ring fence.fence_id head len in
      by_bool (Ends (SettlesOne gpu queue head)) split.1 _ _
        (λ add.
          return_chain-SettlesOne gpu split.0 queue head len
            (law ∙ ap (λ b. if b then held gpu' else held gpu' ++ head ∷ []) add ∙ same))
        (λ hold. inr (
          refl,
          law
              ∙ ap (λ b. if b then held gpu' else held gpu' ++ head ∷ []) hold
              ∙ ap (λ l. l ++ head ∷ []) same,
          refl,
        ))

  settle-SettlesOne :
      (gpu gpu' : v.Gpu) (queue : q.Queue) (head : ℕ) (fence : RutabagaFence) (len : ℕ)
      → held gpu' ≡ held gpu
      → Ends
          (SettlesOne gpu queue head)
          (settle a v q w c commands responses gpu' queue head fence len)
  unfolding settle
  settle-SettlesOne gpu gpu' queue head fence len same =
      by_bool (Ends (SettlesOne gpu queue head)) (is_fenced fence)
        (hold_chain a v q w c commands responses gpu' queue head fence len)
        (return_chain a v q w c commands responses gpu' queue head len)
        (λ fenced. hold_chain-SettlesOne gpu gpu' queue head fence len same)
        (λ unfenced. return_chain-SettlesOne gpu gpu' queue head len same)

  create_fence-held :
      (gpu : v.Gpu) (fence : RutabagaFence) (response : GpuResponse)
      → held (create_fence a v q w c commands responses gpu fence response).0 ≡ held gpu
  unfolding create_fence
  create_fence-held gpu fence response =
      by_bool {B = v.Gpu × GpuResponse} (λ r. held r.0 ≡ held gpu) (is_fenced fence) _ _
        (λ fenced. holds.create_fence-held gpu fence) (λ unfenced. refl)

  encode_response-Ends :
      (fence : RutabagaFence) (response : GpuResponse) (writer : w.Writer)
      → Ends (λ r. Unit {0}) (encode_response a v q w c commands responses fence response writer)
  unfolding encode_response
  encode_response-Ends fence response writer =
      by_option (Ends (λ r. Unit {0}))
        (encode responses w response fence.flags fence.fence_id fence.ctx_id fence.ring_idx writer)
        _ _ (λ panics. tt) (λ r e. by_result (Ends (λ r. Unit {0})) r _ _ (λ x e'. tt) (λ x e'. tt))

  respond-SettlesOne :
      (gpu gpu' : v.Gpu) (queue : q.Queue) (head : ℕ) (response : GpuResponse)
      (hdr : Option VirtioGpuCtrlHdr) (writer : w.Writer)
      → held gpu' ≡ held gpu
      → Ends
          (SettlesOne gpu queue head)
          (respond a v q w c commands responses gpu' queue head response hdr writer)
  unfolding respond
  respond-SettlesOne gpu gpu' queue head response hdr writer same =
      let fence = fence_of hdr in
      let made = create_fence a v q w c commands responses gpu' fence response in
      Ends-bind (λ r. Unit {0}) (SettlesOne gpu queue head)
        (encode_response a v q w c commands responses fence made.1 writer) _
        (encode_response-Ends fence made.1 writer)
        (λ (writer', len) u.
          settle-SettlesOne gpu made.0 queue head fence len
            (create_fence-held gpu' fence response ∙ same))

  dispatch-held :
      (gpu : v.Gpu) (bytes : List ℕ)
      → Ends (λ r. held r.0 ≡ held gpu) (dispatch a v q w c commands responses gpu bytes)
  unfolding dispatch process_gpu_command
  dispatch-held gpu bytes =
      by_result (Ends (λ r. held r.0 ≡ held gpu)) (decode commands bytes) _ _
        (λ (hdr, cmd) e.
          elim (run_command a v (v.force_ctx_0 gpu) hdr cmd)
              as (λ o.
                OnSome (Holds a v holds (v.force_ctx_0 gpu)) o
                → Ends (λ r. held r.0 ≡ held gpu)
                    (elim o as (λ x. Outcome (v.Gpu × GpuResponse × Option VirtioGpuCtrlHdr)) [
                      | none ↦ panicked
                      | some (gpu', result) ↦ done (gpu', response_of result, some hdr)
                    ])) [ none ↦ λ h. tt | some r ↦ λ h. h ∙ holds.force_ctx_0-held gpu ]
            (run_command-Holds a v holds (v.force_ctx_0 gpu) hdr cmd))
        (λ error e. refl)

  process_queue_chain-SettlesOne :
      (gpu : v.Gpu) (queue : q.Queue) (head : ℕ) (bytes : List ℕ) (writer : w.Writer)
      → Ends
          (SettlesOne gpu queue head)
          (process_queue_chain a v q w c commands responses gpu queue head bytes writer)
  unfolding process_queue_chain
  process_queue_chain-SettlesOne gpu queue head bytes writer =
      Ends-bind (λ r. held r.0 ≡ held gpu) (SettlesOne gpu queue head)
        (dispatch a v q w c commands responses gpu bytes) _ (dispatch-held gpu bytes)
        (λ (gpu', response, hdr) same.
          by_bool (Ends (SettlesOne gpu queue head)) (w.available_bytes writer == 0) _ _
            (λ full. return_chain-SettlesOne gpu gpu' queue head 0 same)
            (λ room. respond-SettlesOne gpu gpu' queue head response hdr writer same))

  pub process_chain-SettlesOne :
      (gpu : v.Gpu) (queue : q.Queue) (chain : q.Chain)
      → Ends
          (SettlesOne gpu queue (q.head_index chain))
          (process_chain a v q w c commands responses gpu queue chain)
  unfolding process_chain
  process_chain-SettlesOne gpu queue chain =
      or_fail-bind (SettlesOne gpu queue (q.head_index chain)) create_reader (c.reader chain) _
        λ bytes e.
          or_fail-bind (SettlesOne gpu queue (q.head_index chain)) create_writer (c.writer chain) _
            λ writer e'. process_queue_chain-SettlesOne gpu queue (q.head_index chain) bytes writer

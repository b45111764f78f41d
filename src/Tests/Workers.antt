-- ===== src/Tests/Workers.antt =====
-- The worker of the GPU on a queue with two chains, and a flush.
use virtio_device_poc.Base.{◌≡◌, true, Option, some, [], ◌∷◌, arith}
use virtio_device_poc.Gpu.Interface.{HoldLaws}
use virtio_device_poc.Gpu.Protocol.Commands.Places.{position}
use virtio_device_poc.Gpu.Scanouts.{RutabagaVirtioGpu, new_gpu}
use virtio_device_poc.Gpu.Worker.{WorkerApi}
use virtio_device_poc.Gpu.Worker.Queues.{ChainApi, handle_queue_event}
use virtio_device_poc.Gpu.Worker.Queues.Settled.{Ends}
use virtio_device_poc.Gpu.Worker.Queues.Kicked.{Handles, handle_queue_event-Handles}
use virtio_device_poc.Gpu.Rutabaga.{rutabaga_virtio_gpu}
use virtio_device_poc.Gpu.Rutabaga.Holding.{rutabaga_virtio_gpu-HoldLaws}
use virtio_device_poc.Tests.Queue.{Ring, ring_queue, ring_queue-QueueLaws}
use virtio_device_poc.Tests.Protocols.{buffer, code}
use virtio_device_poc.Tests.Displays.{screen}

abbrev api : WorkerApi
api = record {
  pipe_texture_2d = 2;
  pipe_bind_render_target = 2;
  new_2d = λ x y w h offset. record {
    x = x;
    y = y;
    z = 0;
    w = w;
    h = h;
    d = 1;
    level = 0;
    stride = 0;
    layer_stride = 0;
    offset = offset;
  };
  get_slice = λ addr len. some addr;
  to_string_lossy = λ text. text;
  from_bytes_error = λ bytes. [];
}

abbrev chains : ChainApi ring_queue buffer
chains = record { reader = λ (head, bytes). some bytes; writer = λ c. some ([], 100) }

-- A command that is no command, and a header too short.
abbrev two_chains : Ring
two_chains = record { chains = (3, 1 ∷ 2 ∷ []) ∷ ((5, []) ∷ []); used = []; notified = 0 }

abbrev gpu : RutabagaVirtioGpu screen
gpu = new_gpu screen 0 0

abbrev holds : HoldLaws (rutabaga_virtio_gpu screen)
holds = (rutabaga_virtio_gpu-HoldLaws screen).0

as_gpu : (rutabaga_virtio_gpu screen).Gpu
unfolding rutabaga_virtio_gpu
as_gpu = gpu

handle_queue_event-Handles_example :
    Ends
      (λ (r : (rutabaga_virtio_gpu screen).Gpu × Option Ring).
        (queue' : Ring) × (r.1 ≡ some queue')
        × Handles api
            (rutabaga_virtio_gpu screen)
            ring_queue
            buffer
            chains
            position
            code
            holds
            ring_queue-QueueLaws
            true
            as_gpu
            two_chains
            (r.0, queue'))
      (handle_queue_event api
        (rutabaga_virtio_gpu screen)
        ring_queue
        buffer
        chains
        position
        code
        4
        as_gpu
        (some true)
        (some two_chains))
handle_queue_event-Handles_example =
    handle_queue_event-Handles api (rutabaga_virtio_gpu screen) ring_queue buffer chains position
      code holds ring_queue-QueueLaws 3 as_gpu two_chains
      (unfold ring_queue-QueueLaws in omega arith)

-- ===== src/Lib.antt =====
-- virtio-device-poc: virtio devices behind a vhost-user back-end.
--
-- The program is a front-end's (a VMM's) peer. `vhost-user` answers the requests of the
-- vhost-user protocol: it negotiates features, maps the guest's memory, keeps the virtqueues
-- (rings) and their descriptors, and activates a device once a ring starts. A device's worker
-- threads wait for kicks with `event_manager`, an epoll instance whose user data are typed tokens;
-- `event_token_derive` is the macro that packs an enum into such a token. The console and the GPU
-- are devices behind this back-end.
--
-- The files, and the code that they model:
--   Event/Token            event_manager/src/lib.rs: the trait EventToken and its implementations
--   Event/Derive           event_token_derive/src/lib.rs: variant_bits, generate_used_bits_const,
--                          generate_as_raw_token, generate_from_raw_token, event_token_inner. The
--                          generated match statements are the functions as_raw_arms and
--                          from_raw_arms over the list of variants.
--   VhostUser/Host         what vhost-user calls in virtio-queue, vm-memory and vmm-sys-util: a
--                          record of types and operations that the other files take as a
--                          parameter, and the laws of it that they use
--   VhostUser/Vring        vhost-user/src/vring.rs: a ring as a record, with the epoll instances
--                          that watch its kick; the shared instances and event counters are a
--                          World that each operation takes and returns
--   VhostUser/Bitmap       vhost-user/src/bitmap.rs: the log of dirty pages as a list of bytes. An
--                          index out of range is a panic, and is `none` here
--   VhostUser/Handler      vhost-user/src/handler.rs: the state (Types), the requests (Features,
--                          Memory, Rings) and the choice among them (Dispatch). A request takes
--                          the state and returns the state with a Reply: an answer, an error, or
--                          a panic
--   VhostUser/Backend      vhost-user/src/backend.rs, virtio/src/lib.rs: the trait VirtioDevice, and
--                          a VhostUserDevice that delegates to one
--   VhostUser/Daemon       vhost-user/src/lib.rs: how the errors of a connection become the results
--                          of wait and serve
--   Event/Manager          event_manager/src/lib.rs: wait_timeout and wait_one, on the results that
--                          epoll_wait gives
--   Console/PortMap        device/virtio-console/src/port_queue_mapping.rs
--   Console/Message        the control messages and their bytes, of console_control.rs
--   Console/Control        device/virtio-console/src/console_control.rs: the queue of messages, and
--                          the loops of process_rx and process_tx over a ControlQueue, what they
--                          call in virtio-queue
--   Console/Port           device/virtio-console/src/port.rs: the description of the ports
--   Console/Ports          device/virtio-console/src/process_rx.rs: the thread that reads a port's input
--                          into the guest's buffers; the queue and the input are parameters
--   Console/Device         device/virtio-console/src/device.rs: the console as a VirtioDevice, which
--                          the delegation of VhostUser/Backend takes in turn
--   Gpu/Layout             vm-memory's ByteValued: how a structure of little-endian fields and arrays
--                          is read from bytes and written to them
--   Gpu/Protocol           device/virtio-gpu/src/protocol.rs: the structures (Structs, Virgl, Blob,
--                          Answers), the commands and decode (Commands), the responses and encode
--                          (Responses). The constants of the types are a parameter
--   Gpu/Queue              what the GPU calls in virtio-queue: a record of operations, and their laws
--   Gpu/Fences             device/virtio-gpu/src/virtio_gpu.rs: the fence state, process_fence and the
--                          handler of completed fences
--   Gpu/Interface          device/virtio-gpu/src/virtio_gpu.rs: the trait VirtioGpu as a record, and
--                          what the worker relies on
--   Gpu/Scanouts           device/virtio-gpu/src/virtio_gpu.rs: the tables of resources and scanouts,
--                          and set_scanout, resource_create_3d and unref_resource, which change
--                          them; rutabaga and the front-end's display are a parameter. Stranded follows
--                          a scanout whose resource was removed
--   Gpu/Rutabaga           device/virtio-gpu/src/virtio_gpu.rs: the other commands, and the
--                          implementation of VirtioGpu
--   Gpu/Worker             device/virtio-gpu/src/worker.rs: the choice among the commands; Queues is
--                          the processing of a chain, of a queue and of a kick, over any VirtioGpu
--   Gpu/Config             device/virtio-gpu/src/lib.rs: the configuration and its validation
--   Gpu/Device             device/virtio-gpu/src/device.rs: the GPU as a VirtioDevice
--   Tests                  concrete inputs
--
-- Numbers are natural numbers; where the source adds on a machine integer, the sum is taken modulo
-- its width, saturates, or is checked, as there. Loops over lists are recursions on the list. The
-- loop of mark_dirty is a recursion on its number of rounds, and next_power_of_two has 64 rounds,
-- one for each power of two that a usize can hold. The loops over a control queue take as fuel more
-- than the chains that are pending, of which each round takes one; so do the loops of the GPU's
-- worker and of a port's input over their queues, under the assumption that the guest adds no chain
-- meanwhile.
--
-- A descriptor, which the source owns as a File or an EventFd, is its number: closing it is not
-- modelled, nor is `dup`. The locks are not modelled: an operation is one step. Postcopy, the
-- back-end request channel, the exit event and the sockets are not modelled, being calls of other
-- crates with no state of their own here. Of the console, the output thread of a port and the
-- worker's wait for events are not modelled. Of the GPU, the worker's wait for events, the threads,
-- the memory that a guest can make decode allocate, logging and the blob methods, which the worker
-- never calls, are not modelled. A fence that rutabaga signals within create_fence is completed there;
-- one that it signals at another time is a step of fence_handler. A run in which a held descriptor
-- waits for a fence of the first kind is not modelled: the handler would wait for the queue that the
-- worker holds.
pub mod Base
pub mod Event
pub mod VhostUser
pub mod Console
pub mod Gpu
pub mod Tests

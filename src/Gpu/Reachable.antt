-- ===== src/Gpu/Reachable.antt =====
-- The states that the device reaches by answered commands. (device/virtio-gpu/src/virtio_gpu.rs)
use virtio_device_poc.Base.{ℕ, ◌≡◌, none, ok}
use virtio_device_poc.Gpu.Interface.{ResourceCreate3d}
use virtio_device_poc.Gpu.Scanouts.{
  ok_no_data, GpuHost, RutabagaVirtioGpu, set_scanout, unref_resource, resource_create_3d, new_gpu,
}
use virtio_device_poc.Gpu.Linked.{
  IsLinked, new_gpu-IsLinked, set_scanout-IsLinked, unref_resource-IsLinked,
  resource_create_3d-IsLinked,
}

module _ (h : GpuHost) where
  -- From a new device by SET_SCANOUT and UNREF that are answered, and by the creation of resources
  -- under ids that are free.
  pub data IsReachable : RutabagaVirtioGpu h → Type 0 where
    reset :
        (rutabaga : h.Rutabaga) (gpu_backend : h.GpuBackend)
        → IsReachable (new_gpu h rutabaga gpu_backend)
    scanout_set :
        (g : RutabagaVirtioGpu h) (i r width height : ℕ)
        → IsReachable g
        → (set_scanout h g i r width height).1 ≡ ok ok_no_data
        → IsReachable (set_scanout h g i r width height).0
    created :
        (g : RutabagaVirtioGpu h) (r : ℕ) (create : ResourceCreate3d)
        → IsReachable g
        → g.resources r ≡ none
        → IsReachable (resource_create_3d h g r create).0
    unreferenced :
        (g : RutabagaVirtioGpu h) (r : ℕ)
        → IsReachable g
        → (unref_resource h g r).1 ≡ ok ok_no_data
        → IsReachable (unref_resource h g r).0

  -- In every state that is reached by answered SET_SCANOUT and UNREF, and by resources that are
  -- created under free ids, each resource lists exactly the scanouts that show it, and each scanout
  -- shows a resource that exists.
  pub IsReachable-IsLinked : (g : RutabagaVirtioGpu h) → IsReachable g → IsLinked h g
  IsReachable-IsLinked g (reset rutabaga gpu_backend) = new_gpu-IsLinked h rutabaga gpu_backend
  IsReachable-IsLinked g (scanout_set g' i r width height before answered) =
      (set_scanout-IsLinked h g' i r width height (IsReachable-IsLinked g' before) answered).0
  IsReachable-IsLinked g (created g' r create before unused) =
      resource_create_3d-IsLinked h g' r create (IsReachable-IsLinked g' before) unused
  IsReachable-IsLinked g (unreferenced g' r before answered) =
      (unref_resource-IsLinked h g' r (IsReachable-IsLinked g' before) answered).0

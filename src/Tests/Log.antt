-- ===== src/Tests/Log.antt =====
-- The migration log of a guest with a region of eight pages in the middle of its memory.
use virtio_device_poc.Base.{◌≡◌, refl, some, ok, [], ◌∷◌, replicate}
use virtio_device_poc.VhostUser.Bitmap.{
  AtomicBitmapMmap, LogMem, new, mark_page, mark_pages, mark_dirty, Shared,
}
use virtio_device_poc.VhostUser.Bitmap.Laws.{IsDirtied, new-IsInLog, mark_dirty-IsDirtied}

abbrev log : LogMem
log = replicate 4 0

abbrev region : AtomicBitmapMmap
region = record { pages_before_region = 4; number_of_pages = 8 }

region_is_new : new 0x4000 0x8000 log ≡ ok region
unfolding new
region_is_new = refl

marks_across_a_byte : mark_dirty region 0x3ff0 0x20 log ≡ some (128 ∷ 1 ∷ 0 ∷ 0 ∷ [])
unfolding mark_dirty mark_pages mark_page
marks_across_a_byte = refl

mark_dirty-IsDirtied_example : IsDirtied region 0x3ff0 0x20 log (mark_dirty region 0x3ff0 0x20 log)
mark_dirty-IsDirtied_example =
    mark_dirty-IsDirtied region 0x3ff0 0x20 log (new-IsInLog 0x4000 0x8000 log region region_is_new)

short_is_new : new 0x4000 0x8010 log ≡ ok region
unfolding new
short_is_new = refl

abbrev shared : Shared
shared = record { inner = some region; logmem = log }

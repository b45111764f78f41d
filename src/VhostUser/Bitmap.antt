-- ===== src/VhostUser/Bitmap.antt =====
-- The dirty-page log of live migration: a bitmap of the guest's pages in memory that is shared
-- with the front-end, one byte for eight pages. (vhost-user/src/bitmap.rs)
pub mod Pages
pub mod Marking
pub mod Laws
use virtio_device_poc.Base.{
  ℕ, zero, suc, ◌+◌, ◌-◌, ◌*◌, ◌/◌, ◌%◌, ◌^◌, Bool, true, false, not, Option, none, some, List, [],
  ◌∷◌, Result, ok, err, ◌==◌, ltb, leb, if◌then◌else◌, ◌>>=◌, min, bit_and, bit_or, length,
  get_elem?, set,
}
use mathlib.Core.Option

pub data IoError : Type 0 where
  invalid_data unsupported : IoError
  os_error : ℕ → IoError

abbrev pub log_page_size : ℕ
log_page_size = 0x1000

abbrev pub log_word_size : ℕ
log_word_size = 8

-- usize has 64 bits.
abbrev pub usize_end : ℕ
usize_end = 2 ^ 64

abbrev pub checked_add : ℕ → ℕ → Option ℕ
checked_add a b = if ltb (a + b) usize_end then some (a + b) else none

abbrev pub saturating_add : ℕ → ℕ → ℕ
saturating_add a b = min (a + b) (usize_end - 1)

abbrev pub page_number : ℕ → ℕ
page_number addr = addr / log_page_size

abbrev pub page_word : ℕ → ℕ
page_word page = page / log_word_size

abbrev pub page_bit : ℕ → ℕ
page_bit page = page % log_word_size

-- The mapped bytes of an MmapLogReg; its `len` is their number. An index out of range panics.
abbrev pub LogMem : Type 0
LogMem = List ℕ

-- `MmapLogReg::from_file`: `mmap` is the system call. The offset has to fit isize, and so has the
-- length.
unfoldable pub from_file : (ℕ → ℕ → Result LogMem ℕ) → ℕ → ℕ → Result LogMem IoError
from_file mmap offset len =
    if leb (2 ^ 63) offset
    then err invalid_data
    else if leb (2 ^ 63) len
    then err invalid_data
    else elim (mmap offset len) [ ok bytes ↦ ok bytes | err e ↦ err (os_error e) ]

-- The bitmap of one region, at its place in the shared log.
pub record AtomicBitmapMmap : Type 0 where
  pub pages_before_region : ℕ
  pub number_of_pages : ℕ

-- `MemRegionBitmap::new` for a region, given by its start and its length.
unfoldable pub new : ℕ → ℕ → LogMem → Result AtomicBitmapMmap IoError
new start_addr len logmem =
    if len == 0 then err invalid_data else elim (checked_add start_addr (len - 1)) [
      | none ↦ err invalid_data
      | some end_addr ↦
          if leb (length logmem) (page_word (page_number end_addr))
          then err invalid_data
          else ok (record {
            pages_before_region = page_number start_addr;
            number_of_pages = page_number len;
          })
    ]

-- `fetch_or` of one page's bit.
unfoldable pub mark_page : LogMem → ℕ → Option LogMem
mark_page logmem page =
    Option.map (λ byte. set logmem (page_word page) (bit_or byte (2 ^ page_bit page)))
      (get_elem? logmem (page_word page))

-- The loop over the pages from `page` on, with the rounds left; it ends at the region's end.
unfoldable pub mark_pages : AtomicBitmapMmap → ℕ → ℕ → LogMem → Option LogMem
mark_pages b zero page logmem = some logmem
mark_pages b (suc rounds) page logmem =
    if leb b.number_of_pages page
    then some logmem
    else elim (mark_page logmem (b.pages_before_region + page)) [
      | none ↦ none
      | some logmem' ↦ mark_pages b rounds (page + 1) logmem'
    ]

unfoldable pub mark_dirty : AtomicBitmapMmap → ℕ → ℕ → LogMem → Option LogMem
mark_dirty b offset len logmem =
    let first_page = page_number offset in
    let last_page = page_number (saturating_add offset (len - 1)) in
    let marked = mark_pages b (last_page + 1 - first_page) first_page logmem in
    if len == 0 then some logmem else marked

unfoldable pub dirty_at : AtomicBitmapMmap → ℕ → LogMem → Option Bool
dirty_at b offset logmem =
    let page = page_number offset in
    if leb b.number_of_pages page
    then some false
    else Option.map (λ byte. not (bit_and byte (2 ^ page_bit (b.pages_before_region + page)) == 0))
        (get_elem? logmem (page_word (b.pages_before_region + page)))

-- A BitmapMmapRegion: what the slices of a region share, and the address where a slice begins.
pub record Shared : Type 0 where
  pub inner : Option AtomicBitmapMmap
  pub logmem : LogMem

-- The effect at an absolute offset; there is none if the address overflowed.
unfoldable pub region_mark_at : Option ℕ → ℕ → Shared → Option Shared
region_mark_at none len s = some s
region_mark_at (some absolute) len s = elim s.inner [
  | none ↦ some s
  | some bitmap ↦
      Option.map (λ logmem. record s { logmem = logmem }) (mark_dirty bitmap absolute len s.logmem)
]

unfoldable pub region_mark_dirty : ℕ → ℕ → ℕ → Shared → Option Shared
unfolding region_mark_at
region_mark_dirty base_address offset len s = region_mark_at (checked_add base_address offset) len s

unfoldable pub region_dirty_with : Option AtomicBitmapMmap → ℕ → LogMem → Option Bool
region_dirty_with none absolute logmem = some false
region_dirty_with (some bitmap) absolute logmem = dirty_at bitmap absolute logmem

unfoldable pub region_dirty_at : ℕ → ℕ → Shared → Option Bool
unfolding region_dirty_with
region_dirty_at base_address offset s =
    region_dirty_with s.inner (saturating_add base_address offset) s.logmem

unfoldable pub slice_at : ℕ → ℕ → ℕ
slice_at base_address offset = saturating_add base_address offset

unfoldable pub replace : AtomicBitmapMmap → LogMem → Shared → Shared
replace bitmap logmem s = record { inner = some bitmap; logmem = logmem }

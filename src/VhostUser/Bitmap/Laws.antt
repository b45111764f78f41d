-- ===== src/VhostUser/Bitmap/Laws.antt =====
-- Marking and reading the pages of a region. (vhost-user/src/bitmap.rs)
use virtio_device_poc.Base.{
  ℕ, zero, suc, ◌+◌, ◌-◌, ◌*◌, ◌/◌, ◌≤◌, ◌<◌, ◌≡◌, ◌≢◌, refl, sym, ◌∙◌, ap, ◌⊎◌, Bool, true, false,
  not, ◌||◌, ◌&&◌, Option, some, ◌==◌, ltb, leb, length, ok, arith, ne→==, subst,
}
use virtio_device_poc.VhostUser.Bitmap.{
  AtomicBitmapMmap, LogMem, page_number, mark_dirty, dirty_at, saturating_add, new, Shared,
  slice_at, region_mark_at, region_dirty_with, region_mark_dirty, region_dirty_at, usize_end,
}
use virtio_device_poc.VhostUser.Bitmap.Pages.{log_bit}
use mathlib.Core.Option.{some-injective}
use virtio_device_poc.VhostUser.Bitmap.Marking.{
  IsInLog, touched, IsMarkedBy, mark_pages_lem, dirty_at_lem,
}

-- A bitmap that `new` accepts lies in the log that it was made for.
pub new-IsInLog :
    (start len : ℕ) (logmem : LogMem) (b : AtomicBitmapMmap)
    → new start len logmem ≡ ok b
    → IsInLog b logmem
unfolding new
new-IsInLog start len logmem b h page below = ground arith

-- Whether the bytes [offset, offset + len) touch the page of offset o.
abbrev pub covers : ℕ → ℕ → ℕ → Bool
covers offset len o =
    not (len == 0)
    && (leb (page_number offset) (page_number o)
        && leb (page_number o) (page_number (saturating_add offset (len - 1))))

-- No page of the log belongs to both regions.
abbrev pub IsApart : AtomicBitmapMmap → AtomicBitmapMmap → Type 0
IsApart b c =
    (b.pages_before_region + b.number_of_pages ≤ c.pages_before_region)
    ⊎ (c.pages_before_region + c.number_of_pages ≤ b.pages_before_region)

-- `r` is a normal return that marked [offset, offset + len) in b's region and nothing else.
pub record IsDirtied (b : AtomicBitmapMmap) (offset len : ℕ) (logmem : LogMem) (r : Option LogMem)
    : Type 0 where
  pub after : LogMem
  pub returns : r ≡ some after
  pub same_length : length after ≡ length logmem
  pub inside :
      (o : ℕ) (before : Bool)
      → dirty_at b o logmem ≡ some before
      → dirty_at b o after
        ≡ some (before || (ltb (page_number o) b.number_of_pages && covers offset len o))
  pub outside :
      (c : AtomicBitmapMmap) (o : ℕ)
      → IsInLog c logmem
      → IsApart b c
      → dirty_at c o after ≡ dirty_at c o logmem

covered_test :
    (b : AtomicBitmapMmap) (offset len o : ℕ) (d : Bool)
    → len ≢ 0
    → (ltb (page_number o) b.number_of_pages
        && (touched b
              (page_number offset)
              (page_number (saturating_add offset (len - 1)) + 1 - page_number offset)
              (b.pages_before_region + page_number o)
            || d))
      ≡ (ltb (page_number o) b.number_of_pages && d
          || (ltb (page_number o) b.number_of_pages && covers offset len o))
covered_test b offset len o d h = ground arith

apart_test :
    (b c : AtomicBitmapMmap) (page rounds o : ℕ) (d : Bool)
    → IsApart b c
    → (ltb (page_number o) c.number_of_pages
        && (touched b page rounds (c.pages_before_region + page_number o) || d))
      ≡ (ltb (page_number o) c.number_of_pages && d)
apart_test b c page rounds o d h = ground arith

mark_nothing :
    (b : AtomicBitmapMmap) (offset : ℕ) (logmem : LogMem)
    → IsDirtied b offset 0 logmem (some logmem)
mark_nothing b offset logmem = record {
  after = logmem;
  returns = refl;
  same_length = refl;
  inside = λ o d e. e ∙ ap some (no_change (ltb (page_number o) b.number_of_pages) d);
  outside = λ c o h a. refl;
}
  where
    no_change : (x d : Bool) → d ≡ (d || (x && false))
    no_change true true = refl
    no_change true false = refl
    no_change false true = refl
    no_change false false = refl

mark_something :
    (b : AtomicBitmapMmap) (offset len : ℕ) (logmem : LogMem) (r : Option LogMem)
    → len ≢ 0
    → IsInLog b logmem
    → IsMarkedBy b
        (page_number offset)
        (page_number (saturating_add offset (len - 1)) + 1 - page_number offset)
        logmem
        r
    → IsDirtied b offset len logmem r
mark_something b offset len logmem r some_bytes h m = record {
  after = m.after;
  returns = m.returns;
  same_length = m.same_length;
  inside = λ o d e.
      let value = some-injective _ d (sym (dirty_at_lem b o logmem h) ∙ e) in
      dirty_at_lem b o m.after (kept b h)
      ∙ ap (λ x. some (ltb (page_number o) b.number_of_pages && x))
          (m.bits (b.pages_before_region + page_number o))
      ∙ ap some (
          covered_test b offset len o (log_bit logmem (b.pages_before_region + page_number o))
            some_bytes)
      ∙ ap (λ x. some (x || (ltb (page_number o) b.number_of_pages && covers offset len o))) value;
  outside = λ c o in_log apart.
      dirty_at_lem c o m.after (kept c in_log)
      ∙ ap (λ x. some (ltb (page_number o) c.number_of_pages && x))
          (m.bits (c.pages_before_region + page_number o))
      ∙ ap some (
          apart_test b c (page_number offset)
            (page_number (saturating_add offset (len - 1)) + 1 - page_number offset) o
            (log_bit logmem (c.pages_before_region + page_number o)) apart)
      ∙ sym (dirty_at_lem c o logmem in_log);
}
  where
    kept : (c : AtomicBitmapMmap) → IsInLog c logmem → IsInLog c m.after
    kept c i p l =
        subst (λ (n : ℕ). (c.pages_before_region + p) / 8 < n) (sym m.same_length) (i p l)

-- For a region in the log, mark_dirty returns without an index panic. Afterwards an offset of the
-- region reads dirty exactly if it did before or its page is one of the region's pages that the
-- marked bytes touch, and a region with pages of its own reads as before, also where the two share
-- a byte of the log.
pub mark_dirty-IsDirtied :
    (b : AtomicBitmapMmap) (offset len : ℕ) (logmem : LogMem)
    → IsInLog b logmem
    → IsDirtied b offset len logmem (mark_dirty b offset len logmem)
unfolding mark_dirty
mark_dirty-IsDirtied b offset zero logmem h = mark_nothing b offset logmem
mark_dirty-IsDirtied b offset (suc len) logmem h =
    let some_bytes : suc len ≢ 0 = λ e. omega arith in
    rw (ne→== (suc len) 0 some_bytes) (
      mark_something b offset (suc len) logmem _ some_bytes h
        (mark_pages_lem b _ (page_number offset) logmem h))

-- A region whose length is no whole number of pages has a tail that the bitmap never tracks:
-- whatever was marked, an offset there reads clean.
pub tail_reads_clean :
    (start len o : ℕ) (logmem logmem' : LogMem) (b : AtomicBitmapMmap)
    → new start len logmem ≡ ok b
    → len / 4096 * 4096 ≤ o
    → dirty_at b o logmem' ≡ some false
unfolding new dirty_at
tail_reads_clean start len o logmem logmem' b h beyond = ground arith

-- Within the address space, marking and reading through a slice are marking and reading the
-- region at the slice's offset.
pub slice_at-region :
    (base offset o len : ℕ) (s : Shared)
    → base + offset + o < usize_end
    → (region_mark_dirty (slice_at base offset) o len s ≡ region_mark_dirty base (offset + o) len s)
      × (region_dirty_at (slice_at base offset) o s ≡ region_dirty_at base (offset + o) s)
unfolding slice_at region_mark_dirty region_dirty_at
slice_at-region base offset o len s fits =
    let start : saturating_add base offset ≡ base + offset = omega arith in
    let regroup : base + offset + o ≡ base + (offset + o) = omega arith in
    (
      ap (λ r. region_mark_at r len s) (rw start (rw regroup refl)),
      ap (λ a. region_dirty_with s.inner a s.logmem) (rw start (rw regroup refl)),
    )

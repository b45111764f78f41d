-- ===== src/VhostUser/Bitmap/Marking.antt =====
-- The loop of mark_dirty over the pages, and reading one page. (vhost-user/src/bitmap.rs)
use virtio_device_poc.Base.{
  ℕ, zero, suc, ◌+◌, ◌/◌, ◌≤◌, ◌<◌, ◌≡◌, refl, sym, ◌∙◌, ap, inl, inr, Bool, false, ◌||◌, ◌&&◌,
  Option, none, some, ◌==◌, ltb, leb, length, get_elem?-lt, arith, Bool-cases, subst, leb→le,
  lt→ltb,
}
use virtio_device_poc.Base.Flags.{bit_test}
use virtio_device_poc.VhostUser.Bitmap.{
  AtomicBitmapMmap, LogMem, page_number, page_bit, mark_page, mark_pages, dirty_at,
}
use virtio_device_poc.VhostUser.Bitmap.Pages.{log_bit, mark_page_lem}

-- Every page of the region has its bit in the log.
abbrev pub IsInLog : AtomicBitmapMmap → LogMem → Type 0
IsInLog b logmem =
    (page : ℕ) → page < b.number_of_pages → (b.pages_before_region + page) / 8 < length logmem

-- The pages that the loop visits, as pages of the log.
abbrev pub touched : AtomicBitmapMmap → ℕ → ℕ → ℕ → Bool
touched b page rounds q =
    leb (b.pages_before_region + page) q
    && (ltb q (b.pages_before_region + page + rounds)
        && ltb q (b.pages_before_region + b.number_of_pages))

pub record IsMarkedBy (b : AtomicBitmapMmap) (page rounds : ℕ) (logmem : LogMem) (r : Option LogMem)
    : Type 0 where
  pub after : LogMem
  pub returns : r ≡ some after
  pub same_length : length after ≡ length logmem
  pub bits : (q : ℕ) → log_bit after q ≡ (touched b page rounds q || log_bit logmem q)

touched_none :
    (b : AtomicBitmapMmap) (page rounds q : ℕ) (d : Bool)
    → b.number_of_pages ≤ page
    → d ≡ (touched b page rounds q || d)
touched_none b page rounds q d h = ground arith

touched-suc :
    (b : AtomicBitmapMmap) (page rounds q : ℕ) (d : Bool)
    → page < b.number_of_pages
    → (touched b (page + 1) rounds q || (b.pages_before_region + page == q || d))
      ≡ (touched b page (suc rounds) q || d)
touched-suc b page rounds q d h = ground arith

mark_pages_step :
    (b : AtomicBitmapMmap) (rounds page : ℕ) (logmem logmem' : LogMem)
    → leb b.number_of_pages page ≡ false
    → mark_page logmem (b.pages_before_region + page) ≡ some logmem'
    → mark_pages b (suc rounds) page logmem ≡ mark_pages b rounds (page + 1) logmem'
unfolding mark_pages
mark_pages_step b rounds page logmem logmem' p q =
    rw (p, mark_pages)
      (ap
        (λ (o : Option LogMem). elim o [ none ↦ none | some l ↦ mark_pages b rounds (page + 1) l ])
        q)

pub mark_pages_lem :
    (b : AtomicBitmapMmap) (rounds page : ℕ) (logmem : LogMem)
    → IsInLog b logmem
    → IsMarkedBy b page rounds logmem (mark_pages b rounds page logmem)
mark_pages_lem b zero page logmem h = record {
  after = logmem;
  returns = unfold mark_pages in refl;
  same_length = refl;
  bits = λ q. let d = log_bit logmem q in ground arith;
}
mark_pages_lem b (suc rounds) page logmem h = elim (Bool-cases (leb b.number_of_pages page)) [
  | inl beyond ↦ record {
    after = logmem;
    returns = unfold mark_pages in rw (beyond, mark_pages) refl;
    same_length = refl;
    bits = λ q. touched_none b page (suc rounds) q (log_bit logmem q) (leb→le _ _ beyond);
  }
  | inr below ↦
      let inside : page < b.number_of_pages = ground arith in
      let first = mark_page_lem logmem (b.pages_before_region + page) (h page inside) in
      let rest = mark_pages_lem b rounds (page + 1) first.after (λ p l.
        subst (λ (n : ℕ). (b.pages_before_region + p) / 8 < n) (sym first.same_length) (h p l)) in
      record {
        after = rest.after;
        returns =
            mark_pages_step b rounds page logmem first.after below first.returns ∙ rest.returns;
        same_length = rest.same_length ∙ first.same_length;
        bits = λ q.
            rest.bits q
            ∙ ap (λ d. touched b (page + 1) rounds q || d) (first.bits q)
            ∙ touched-suc b page rounds q (log_bit logmem q) inside;
      }
]

-- In the log, dirty_at reads the page's bit; beyond the region it is false.
pub dirty_at_lem :
    (b : AtomicBitmapMmap) (o : ℕ) (logmem : LogMem)
    → IsInLog b logmem
    → dirty_at b o logmem
      ≡ some (
          ltb (page_number o) b.number_of_pages
          && log_bit logmem (b.pages_before_region + page_number o))
unfolding dirty_at
dirty_at_lem b o logmem h = elim (Bool-cases (leb b.number_of_pages (page_number o))) [
  | inl beyond ↦ rw (beyond) (ground arith)
  | inr below ↦
      let inside : page_number o < b.number_of_pages = ground arith in
      let (byte, found) =
        get_elem?-lt logmem ((b.pages_before_region + page_number o) / 8)
          (h (page_number o) inside) in
      rw below (
        rw found (
          rw (lt→ltb _ _ inside)
            (ap some (bit_test byte (page_bit (b.pages_before_region + page_number o))))))
]

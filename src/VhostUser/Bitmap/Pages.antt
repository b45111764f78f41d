-- ===== src/VhostUser/Bitmap/Pages.antt =====
-- The bits of the log, page by page. (vhost-user/src/bitmap.rs)
use virtio_device_poc.Base.{
  ℕ, ◌/◌, ◌%◌, ◌^◌, ◌<◌, ◌≡◌, ◌≢◌, sym, ◌∙◌, ap, Bool, false, ◌||◌, Option, none, some, ◌==◌,
  bit_or, length, get_elem?, set, max, length-set, get_elem?-set_self, get_elem?-set_ne,
  get_elem?-lt, arith, ℕ_discrete, eq→==, ne→==,
}
use virtio_device_poc.Base.Bits.{bit, bit-bit_or, bit-pow_self, bit-pow_ne, bit-le-one}
use virtio_device_poc.VhostUser.Bitmap.{LogMem, mark_page}

abbrev pub byte_bit : Option ℕ → ℕ → Bool
byte_bit none i = false
byte_bit (some byte) i = bit byte i == 1

-- Whether the log has guest page p's bit: bit p % 8 of byte p / 8, and false outside of the log.
abbrev pub log_bit : LogMem → ℕ → Bool
log_bit logmem p = byte_bit (get_elem? logmem (p / 8)) (p % 8)

bit_set : (byte i j : ℕ) → (bit (bit_or byte (2 ^ i)) j == 1) ≡ (i == j || bit byte j == 1)
bit_set byte i j = elim (ℕ_discrete i j) [
  | yes same ↦ rw (eq→== i j same) (
      eq→== _ 1 (
        bit-bit_or byte (2 ^ i) j
        ∙ rw same (
            let e : max (bit byte j) (bit (2 ^ j) j) ≡ 1 =
              omega (arith, bit-pow_self j, bit-le-one byte j) in
            e)))
  | no ne ↦ rw (ne→== i j ne) (
      ap (λ (t : ℕ). t == 1)
        (bit-bit_or byte (2 ^ i) j
          ∙ rw (bit-pow_ne i j ne) (let e : max (bit byte j) 0 ≡ bit byte j = omega arith in e)))
]

-- Setting a page's bit in the log sets that bit and no other.
pub record IsMarked (logmem : LogMem) (p : ℕ) (r : Option LogMem) : Type 0 where
  pub after : LogMem
  pub returns : r ≡ some after
  pub same_length : length after ≡ length logmem
  pub bits : (q : ℕ) → log_bit after q ≡ (p == q || log_bit logmem q)

same_byte :
    (logmem : LogMem) (p q byte : ℕ)
    → p / 8 ≡ q / 8
    → p / 8 < length logmem
    → get_elem? logmem (p / 8) ≡ some byte
    → log_bit (set logmem (p / 8) (bit_or byte (2 ^ (p % 8)))) q ≡ (p == q || log_bit logmem q)
same_byte logmem p q byte same h found =
    let changed : ℕ = bit_or byte (2 ^ (p % 8)) in
    let read : get_elem? (set logmem (p / 8) changed) (q / 8) ≡ some changed =
      ap (get_elem? (set logmem (p / 8) changed)) (sym same)
      ∙ get_elem?-set_self logmem (p / 8) changed h in
    let before : get_elem? logmem (q / 8) ≡ some byte = ap (get_elem? logmem) (sym same) ∙ found in
    let index : (p % 8 == q % 8) ≡ (p == q) = ground arith in
    ap (λ o. byte_bit o (q % 8)) read
    ∙ bit_set byte (p % 8) (q % 8)
    ∙ ap (λ b. b || bit byte (q % 8) == 1) index
    ∙ ap (λ o. p == q || byte_bit o (q % 8)) (sym before)

other_byte :
    (logmem : LogMem) (p q changed : ℕ)
    → p / 8 ≢ q / 8
    → log_bit (set logmem (p / 8) changed) q ≡ (p == q || log_bit logmem q)
other_byte logmem p q changed ne =
    rw (ne→== p q (λ e. ne (ap (λ (t : ℕ). t / 8) e)))
      (ap (λ o. byte_bit o (q % 8)) (get_elem?-set_ne logmem (p / 8) (q / 8) changed ne))

pub mark_page_lem :
    (logmem : LogMem) (p : ℕ) → p / 8 < length logmem → IsMarked logmem p (mark_page logmem p)
unfolding mark_page
mark_page_lem logmem p h =
    let (byte, found) = get_elem?-lt logmem (p / 8) h in
    let changed = bit_or byte (2 ^ (p % 8)) in
    record {
      after = set logmem (p / 8) changed;
      returns = rw found;
      same_length = length-set logmem (p / 8) changed;
      bits = λ q. elim (ℕ_discrete (p / 8) (q / 8)) [
        | yes same ↦ same_byte logmem p q byte same h found
        | no ne ↦ other_byte logmem p q changed ne
      ];
    }

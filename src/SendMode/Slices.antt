-- ===== src/SendMode/Slices.antt =====
-- The bytes of a message that its parts stand for, app/up/sendmode.cpp.
use native.Mathlib.Nat.{mul-suc, suc-mul, mul_comm, add-mul, mul-le-mul_right}
use native.Mathlib.Omega.{div_any, mod_fact}
use mathlib.Core.List.{append-nil}
use yd.Prelude.{
  ℕ, zero, suc, ◌+◌, ◌-◌, ◌*◌, ◌/◌, ◌%◌, ◌≤◌, ◌<◌, List, [], ◌++◌, take, drop, replicate, length,
  min, Bool-cases, true, false, inl, inr, length-drop, ltb, ◌==◌, if◌then◌else◌, ◌≡◌, refl, sym, ap,
  ◌∙◌, arith,
}
use yd.Prelude.Slices.{take_add, drop_add, take-append_within}
use yd.Packet.Frame.{pdsize}
use yd.SendMode.{SendMode, MxType, init, get_sn_size, slice}

-- The bytes of the message that the `n` parts from number `c` on stand for.
unfoldable pub slices : SendMode → ℕ → ℕ → List ℕ
slices s zero c = []
slices s (suc n) c = slice s.buf (c * s.psize) (get_sn_size s (c + 1)) ++ slices s n (c + 1)

-- What `init` leaves behind a message that is not empty.
pub record IsCut (s : SendMode) : Type 0 where
  pub some_bytes : 0 < s.len
  pub part_size : 0 < s.psize
  pub last_begins : (s.packet_count - 1) * s.psize < s.len
  pub last_ends : s.len ≤ s.packet_count * s.psize
  pub counted : 0 < s.packet_count
  pub in_frame : s.len + 16 ≤ pdsize

-- The number of parts of a message, as `init` computes it.
abbrev count : ℕ → ℕ → ℕ
count len psize = len / psize + (if len % psize == 0 then 0 else 1)

abbrev Covers : ℕ → ℕ → ℕ → Type 0
Covers len psize n = (0 < n) × ((n - 1) * psize < len) × (len ≤ n * psize)

count-Covers :
    (q r len psize : ℕ)
    → 0 < len
    → r < psize
    → psize * q + r ≡ len
    → Covers len psize (q + (if r == 0 then 0 else 1))
count-Covers zero zero len psize h k e = absurd (omega arith)
count-Covers (suc q) zero len psize h k e =
    let wide = mul-suc psize q in
    let turn = mul_comm q psize in
    let next = suc-mul q psize in
    let same : suc q + (if zero == 0 then 0 else 1) ≡ suc q = omega arith in
    let low : suc q + (if zero == 0 then 0 else 1) - 1 ≡ q = omega arith in
    (omega arith, rw low (omega arith), rw same (omega arith))
count-Covers q (suc r) len psize h k e =
    let turn = mul_comm q psize in
    let next = suc-mul q psize in
    let same : q + (if suc r == 0 then 0 else 1) ≡ suc q = ground arith in
    let low : q + (if suc r == 0 then 0 else 1) - 1 ≡ q = ground arith in
    (rw same (omega arith), rw low (omega arith), rw same (omega arith))

count_lem : (len psize : ℕ) → 0 < len → 0 < psize → Covers len psize (count len psize)
count_lem len zero h k = absurd (omega arith)
count_lem len (suc p) h k =
    count-Covers (len / suc p) (len % suc p) len (suc p) h (mod_fact len p) (div_any len (suc p))

abbrev clamped : ℕ → ℕ
clamped len = if ltb pdsize (len + 16) then pdsize - 16 else len

pub init-IsCut :
    (s : SendMode) (type : MxType) (remote cmd : ℕ) (buf : List ℕ) (len size_per_packet : ℕ)
    → 0 < len
    → 0 < size_per_packet
    → IsCut (init s type remote cmd buf len size_per_packet)
unfolding init
init-IsCut s type remote cmd buf len size_per_packet h k =
    let size : (clamped len == 0) ≡ false = ground arith in
    let small : clamped len + 16 ≤ pdsize = ground arith in
    let pos_len : 0 < clamped len = ground arith in
    let (one, begins, ends) = count_lem (clamped len) size_per_packet pos_len k in
    let some_count : (count (clamped len) size_per_packet == 0) ≡ false = ground arith in
    rw (size, some_count)
      (record {
        some_bytes = pos_len;
        part_size = k;
        last_begins = begins;
        last_ends = ends;
        counted = one;
        in_frame = small;
      })

slice_within :
    (buf : List ℕ) (offset n : ℕ)
    → offset + n ≤ length buf
    → slice buf offset n ≡ take n (drop offset buf)
unfolding slice
slice_within buf offset n h =
    take-append_within n (drop offset buf) (replicate n 0) (omega (arith, length-drop offset buf))

pub size_last :
    (s : SendMode) (c : ℕ) → c + 1 ≡ s.packet_count → get_sn_size s (c + 1) ≡ s.len - c * s.psize
unfolding get_sn_size
size_last s c e =
    let last : c + 1 == s.packet_count ≡ true = ground arith in
    let first : c + 1 == 0 ≡ false = ground arith in
    let before : c + 1 - 1 ≡ c = omega arith in rw (first, last, before)

pub size_inner : (s : SendMode) (c : ℕ) → c + 1 < s.packet_count → get_sn_size s (c + 1) ≡ s.psize
unfolding get_sn_size
size_inner s c e =
    let last : c + 1 == s.packet_count ≡ false = ground arith in
    let first : c + 1 == 0 ≡ false = ground arith in rw (first, last)

slices_from :
    (s : SendMode) (n c : ℕ)
    → IsCut s
    → s.len ≤ length s.buf
    → n + c ≡ s.packet_count
    → slices s n c ≡ take (s.len - c * s.psize) (drop (c * s.psize) s.buf)
unfolding slices
slices_from s zero c cut fits e =
    let ends = cut.last_ends in
    let at : c ≡ s.packet_count = omega arith in
    let none_left : s.len - c * s.psize ≡ 0 = rw at (omega arith) in rw none_left
slices_from s (suc zero) c cut fits e =
    let begins = cut.last_begins in
    let at : s.packet_count - 1 ≡ c = omega arith in
    let within : c * s.psize < s.len = rw at at begins in
    rw
      (
        size_last s c (omega arith),
        slice_within s.buf (c * s.psize) (s.len - c * s.psize) (omega arith),
      )
      (append-nil (take (s.len - c * s.psize) (drop (c * s.psize) s.buf)))
slices_from s (suc (suc n)) c cut fits e =
    let begins = cut.last_begins in
    let grow : (c + 1) * s.psize ≤ (s.packet_count - 1) * s.psize =
      mul-le-mul_right s.psize (omega arith) in
    let next : (c + 1) * s.psize ≡ c * s.psize + s.psize = add-mul c 1 s.psize ∙ omega arith in
    let split_len : s.len - c * s.psize ≡ s.psize + (s.len - (c + 1) * s.psize) = omega arith in
    let split_at : drop ((c + 1) * s.psize) s.buf ≡ drop s.psize (drop (c * s.psize) s.buf) =
      ap (λ k. drop k s.buf) next ∙ drop_add (c * s.psize) s.psize s.buf in
    rw
      (
        size_inner s c (omega arith),
        slice_within s.buf (c * s.psize) s.psize (omega arith),
        slices_from s (suc n) (c + 1) cut fits (omega arith),
        split_at,
        split_len,
      )
      (sym (take_add s.psize (s.len - (c + 1) * s.psize) (drop (c * s.psize) s.buf)))

pub slices_whole :
    (s : SendMode) → IsCut s → s.len ≤ length s.buf → slices s s.packet_count 0 ≡ take s.len s.buf
slices_whole s cut fits =
    let none_before : 0 * s.psize ≡ 0 = omega arith in
    let all : s.len - 0 ≡ s.len = omega arith in
    slices_from s s.packet_count 0 cut fits (omega arith)
    ∙ ap (λ k. take (s.len - k) (drop k s.buf)) none_before
    ∙ ap (λ k. take k s.buf) all

pub init-len :
    (s : SendMode) (type : MxType) (remote cmd : ℕ) (buf : List ℕ) (len size_per_packet : ℕ)
    → ((init s type remote cmd buf len size_per_packet).len ≡ min len (pdsize - 16))
      × ((init s type remote cmd buf len size_per_packet).buf ≡ buf)
      × ((init s type remote cmd buf len size_per_packet).remote ≡ remote)
      × ((init s type remote cmd buf len size_per_packet).cmd ≡ cmd)
unfolding init
init-len s type remote cmd buf len size_per_packet = elim (Bool-cases (clamped len == 0)) [
  | inl none ↦ rw none (ground arith, refl, refl, refl)
  | inr some ↦ rw some (ground arith, refl, refl, refl)
]

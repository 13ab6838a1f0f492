-- ===== src/SendMode/Parts.antt =====
-- The frames of the parts that `init` cuts a message into, app/up/sendmode.cpp.
use native.Mathlib.Nat.{mul-le-mul_right}
use yd.Prelude.{
  ℕ, zero, suc, ◌+◌, ◌-◌, ◌*◌, ◌%◌, ◌≤◌, ◌<◌, List, [], ◌∷◌, ◌++◌, Bool, Option, IsByte, IsBytes,
  All-append, length-take, ap₂, take, drop, replicate, length, if_either, ◌^◌, Bool-cases, true,
  inl, inr, ◌==◌, if◌then◌else◌, ◌≡◌, refl, sym, subst, ap, ◌∙◌, arith,
}
use yd.Prelude.Slices.{take-min}
use yd.Packet.Frame.{pdsize}
use yd.Packet.Encode.{UuPacket, uu_wire, upacket_encodehex}
use yd.Packet.Encode.Wire.{IsCall, size, wire, sent, payload, packetlen_sent}
use yd.SendMode.{
  SendMode, Answer, MxType, init, get_sn_size, slice, encode_part, stx_stx, stx_syn, etx_etx,
  etx_etb,
}
use yd.SendMode.Slices.{slices, IsCut, init-IsCut, slices_whole, init-len, size_last, size_inner}

-- The data of a frame that is handed to the device.
abbrev pub frame_data : UuPacket → List ℕ
frame_data p = take (p.packetlen - 17) (drop 14 (uu_wire p))

-- A packet of the program: its array has its size and holds bytes.
pub record IsPacket (p : UuPacket) : Type 0 where
  pub array : length p.buf ≡ pdsize + 20
  pub stale : IsBytes p.buf

IsBytes-take : (n : ℕ) (xs : List ℕ) → IsBytes xs → IsBytes (take n xs)
IsBytes-take zero xs h = tt
IsBytes-take (suc n) [] h = tt
IsBytes-take (suc n) (x ∷ xs) h = (h.0, IsBytes-take n xs h.1)

IsBytes-drop : (n : ℕ) (xs : List ℕ) → IsBytes xs → IsBytes (drop n xs)
IsBytes-drop zero xs h = h
IsBytes-drop (suc n) [] h = tt
IsBytes-drop (suc n) (x ∷ xs) h = IsBytes-drop n xs h.1

pub IsBytes-zeros : (n : ℕ) → IsBytes (replicate n 0)
IsBytes-zeros zero = tt
IsBytes-zeros (suc n) = (omega arith, IsBytes-zeros n)

slice-IsBytes : (buf : List ℕ) (offset n : ℕ) → IsBytes buf → IsBytes (slice buf offset n)
unfolding slice
slice-IsBytes buf offset n h = IsBytes-take n (drop offset buf ++ replicate n 0) (
    All-append IsByte (drop offset buf) (replicate n 0) (IsBytes-drop offset buf h)
      (IsBytes-zeros n))

length-slice : (buf : List ℕ) (offset n : ℕ) → length (slice buf offset n) ≤ n
unfolding slice
length-slice buf offset n = omega (arith, length-take n (drop offset buf ++ replicate n 0))

get_sn_size_le :
    (s : SendMode) (c : ℕ) → IsCut s → c < s.packet_count → get_sn_size s (c + 1) ≤ s.len
get_sn_size_le s c cut h = elim (Bool-cases (c + 1 == s.packet_count)) [
  | inl last ↦ omega (arith, size_last s c (ground (arith, last)))
  | inr inner ↦
      let one : 1 * s.psize ≤ (s.packet_count - 1) * s.psize =
        mul-le-mul_right s.psize (ground (arith, inner)) in
      omega (arith, size_inner s c (ground (arith, inner)), cut.last_begins, one)
]

module _ (local passwd : ℕ) (arrival : ℕ → Option Answer) (send_end : ℕ → Bool) (ms : ℕ)
    (ups : ℕ → UuPacket) where
  -- The data of the frames of the `n` parts from number `c` on, as `encode_part` makes them; the packet
  -- that it overwrites for part `c` is `ups c`.
  unfoldable pub parts : SendMode → ℕ → ℕ → List ℕ
  parts s zero c = []
  parts s (suc n) c =
      frame_data (encode_part local passwd arrival send_end ms (record s { up = ups c }) c).up
      ++ parts s n (c + 1)

  part-slice :
      (s : SendMode) (c : ℕ)
      → IsCut s
      → c < s.packet_count
      → IsPacket (ups c)
      → s.remote < 256
      → s.cmd < 256
      → IsBytes s.buf
      → frame_data (encode_part local passwd arrival send_end ms (record s { up = ups c }) c).up
        ≡ slice s.buf (c * s.psize) (get_sn_size s (c + 1))
  unfolding encode_part upacket_encodehex get_sn_size size wire sent
  part-slice s c cut h p remote cmd bytes =
      let text = slice s.buf (c * s.psize) (get_sn_size s (c + 1)) in
      let stx = if s.packet_count == 1 then stx_stx else stx_syn in
      let etx = if c + 1 == s.packet_count then etx_etx else etx_etb in
      let call : IsCall (ups c) s.remote s.cmd [] text stx etx = record {
        array = p.array;
        stale = p.stale;
        remote_byte = remote;
        cmd_byte = cmd;
        bytes1 = tt;
        bytes2 = slice-IsBytes s.buf (c * s.psize) (get_sn_size s (c + 1)) bytes;
        stx_byte =
            if_either (λ (m : ℕ). m < 256) (s.packet_count == 1) (λ one. omega arith)
              (λ more. omega arith);
        etx_byte =
            if_either (λ (m : ℕ). m < 256) (c + 1 == s.packet_count) (λ last. omega arith)
              (λ inner. omega arith);
        fits = omega (
          arith,
          length-slice s.buf (c * s.psize) (get_sn_size s (c + 1)),
          get_sn_size_le s c cut h,
          cut.in_frame,
        );
      } in
      let u = sent (ups c) true s.remote local (passwd % 2 ^ 16) s.cmd [] text stx etx call in
      let n =
        packetlen_sent (ups c) true s.remote local (passwd % 2 ^ 16) s.cmd [] text stx etx call in
      ap (λ (k : ℕ). take k (drop 14 (uu_wire u))) (omega (arith, n))
      ∙ payload (ups c) true s.remote local (passwd % 2 ^ 16) s.cmd [] text stx etx call

  parts-slices :
      (s : SendMode) (n c : ℕ)
      → IsCut s
      → n + c ≤ s.packet_count
      → ((k : ℕ) → IsPacket (ups k))
      → s.remote < 256
      → s.cmd < 256
      → IsBytes s.buf
      → parts s n c ≡ slices s n c
  unfolding parts slices
  parts-slices s zero c cut h p remote cmd bytes = refl
  parts-slices s (suc n) c cut h p remote cmd bytes =
      ap₂ ◌++◌ (part-slice s c cut (omega arith) (p c) remote cmd bytes)
        (parts-slices s n (c + 1) cut (omega arith) p remote cmd bytes)

-- A message that is not empty is cut into at least one part, the last of which begins within the
-- message and ends it; its first PDSIZE - 16 bytes are kept, and the data of the frames that modes M2 and
-- M4 encode for the parts, from the first to the last, are those bytes, each once and in order, whatever
-- packets of the program they overwrite, for a message, an address and a command of bytes.
pub init-parts :
    (local passwd : ℕ) (arrival : ℕ → Option Answer) (send_end : ℕ → Bool) (ms : ℕ)
    (ups : ℕ → UuPacket) (s : SendMode) (type : MxType) (remote cmd : ℕ) (buf : List ℕ)
    (size_per_packet : ℕ)
    → 0 < length buf
    → 0 < size_per_packet
    → IsBytes buf
    → remote < 256
    → cmd < 256
    → ((k : ℕ) → IsPacket (ups k))
    → let t = init s type remote cmd buf (length buf) size_per_packet in
      IsCut t
      × (parts local passwd arrival send_end ms ups t t.packet_count 0 ≡ take (pdsize - 16) buf)
init-parts local passwd arrival send_end ms ups s type remote cmd buf size_per_packet h k bytes rb
      cb p =
    let t = init s type remote cmd buf (length buf) size_per_packet in
    let cut = init-IsCut s type remote cmd buf (length buf) size_per_packet h k in
    let (size, same, same_remote, same_cmd) =
      init-len s type remote cmd buf (length buf) size_per_packet in
    let room : length t.buf ≡ length buf = ap length same in
    (
      cut,
      parts-slices local passwd arrival send_end ms ups t t.packet_count 0 cut (omega arith) p
            (omega (arith, same_remote)) (omega (arith, same_cmd)) (subst IsBytes (sym same) bytes)
          ∙ slices_whole t cut (omega arith)
          ∙ ap (λ b. take t.len b) same
          ∙ ap (λ k. take k buf) size
          ∙ take-min (pdsize - 16) buf,
    )

-- ===== src/Packet/Encode/Wire.antt =====
-- The bytes of an encoded frame one by one, `upacket_encode` of app/up/packet/upacket.cpp.
use yd.Prelude.{
  ℕ, ◌+◌, ◌-◌, ◌*◌, ◌/◌, ◌%◌, ◌^◌, ◌≤◌, ◌<◌, bit_or, List, ◌++◌, set, put, get_or, length, take,
  drop, length-append, length-set, length-put, length-take, get_or-set_self, get_or-set_ne,
  get_or-take, get_or-append_left, get_or-append_right, take-set_ge, take-put, drop-append,
  take-take_le, take-append_add, IsBytes-set, IsBytes-put, IsBytes, Bool, ◌≡◌, refl, sym, ap, ap₂,
  ◌∙◌, arith,
}
use yd.Prelude.Bits.{bit_or_low}
use yd.Codec.Order.{inverseto, inverseto_loop}
use yd.Codec.Crc.{crc_calculate}
use yd.Codec.Crc.Detect.{crc_calculate-take, crc_calculate-lt}
use yd.Packet.Frame.{pdsize, ud_dlen, ud_crc}
use yd.Packet.Encode.{
  UuPacket, uu_header, uu_bytes, uu_wire, len_field, encode_open, encode_len, upacket_encode,
}
use yd.Packet.Encode.LenField.{down_bit, len_field-eq, down_bit_le, swapped}

-- The arguments of a call that are bytes, with a payload that fits.
pub record IsCall (packet : UuPacket) (remote cmd : ℕ) (data1 data2 : List ℕ) (stx etx : ℕ)
    : Type 0 where
  pub array : length packet.buf ≡ pdsize + 20
  pub stale : IsBytes packet.buf
  pub remote_byte : remote < 256
  pub cmd_byte : cmd < 256
  pub bytes1 : IsBytes data1
  pub bytes2 : IsBytes data2
  pub stx_byte : stx < 256
  pub etx_byte : etx < 256
  pub fits : length data1 + length data2 ≤ pdsize - 3

module _ (packet : UuPacket) (up : Bool) (remote local passwd cmd : ℕ) (data1 data2 : List ℕ)
    (stx etx : ℕ) (call : IsCall packet remote cmd data1 data2 stx etx) where
  unfoldable pub size : ℕ
  size = length data1 + length data2

  unfoldable pub sent : UuPacket
  sent = upacket_encode packet up remote local passwd cmd data1 data2 stx etx

  opened : UuPacket
  opened = encode_open packet up remote local passwd cmd data1 data2 stx etx size

  encode_len-eq : encode_len data1 data2 ≡ size
  unfolding encode_len size
  encode_len-eq = ground (arith, call.fits)

  header_same : uu_header sent ≡ uu_header opened
  unfolding sent opened upacket_encode uu_header encode_open
  header_same = rw encode_len-eq

  length-header : length (uu_header sent) ≡ 14
  unfolding sent upacket_encode encode_open uu_header inverseto inverseto_loop
  length-header = refl

  crc : ℕ
  crc = crc_calculate (uu_bytes opened) (size + 15)

  buf_sent :
      sent.buf ≡ set (set opened.buf (size + 1) (crc / 2 ^ 8 % 2 ^ 8)) (size + 2) (crc % 2 ^ 8)
  unfolding sent opened crc upacket_encode encode_open
  buf_sent = rw encode_len-eq

  pub packetlen_sent : sent.packetlen ≡ size + 17
  unfolding sent upacket_encode
  packetlen_sent = rw encode_len-eq

  unfoldable pub wire : List ℕ
  wire = uu_wire sent

  -- A cell of the wire, in the header and in the data.
  pub wire_head : (i : ℕ) → i < 14 → get_or wire i 0 ≡ get_or (uu_header sent) i 0
  unfolding wire uu_wire
  wire_head i h =
      get_or-take sent.packetlen i (uu_header sent ++ sent.buf) 0 (omega (arith, packetlen_sent))
      ∙ get_or-append_left (uu_header sent) sent.buf i 0 (omega (arith, length-header))

  wire_data : (i : ℕ) → i < size + 3 → get_or wire (14 + i) 0 ≡ get_or sent.buf i 0
  unfolding wire uu_wire
  wire_data i h =
      get_or-take sent.packetlen (14 + i) (uu_header sent ++ sent.buf) 0
        (omega (arith, packetlen_sent))
      ∙ rw (← length-header) (get_or-append_right (uu_header sent) sent.buf i 0)

  array_opened : length opened.buf ≡ pdsize + 20
  unfolding opened encode_open
  array_opened =
      length-set (put (put packet.buf 0 data1) (length data1) data2) size etx
      ∙ length-put data2 (put packet.buf 0 data1) (length data1)
      ∙ length-put data1 packet.buf 0
      ∙ call.array

  size_fits : size ≤ pdsize - 3
  unfolding size
  size_fits = call.fits

  array_sent : length sent.buf ≡ pdsize + 20
  array_sent = rw buf_sent (
      length-set (set opened.buf (size + 1) (crc / 2 ^ 8 % 2 ^ 8)) (size + 2) (crc % 2 ^ 8)
      ∙ length-set opened.buf (size + 1) (crc / 2 ^ 8 % 2 ^ 8)
      ∙ array_opened)

  pub length-wire : length wire ≡ size + 17
  unfolding wire uu_wire
  length-wire =
      length-take sent.packetlen (uu_header sent ++ sent.buf)
      ∙ omega (
        arith,
        packetlen_sent,
        length-append (uu_header sent) sent.buf,
        length-header,
        array_sent,
        size_fits,
      )

  -- The data bytes and the end mark are as `encode_open` left them; the checksum follows.
  buf_kept : (i : ℕ) → i ≤ size → get_or sent.buf i 0 ≡ get_or opened.buf i 0
  buf_kept i h = rw buf_sent (
      get_or-set_ne (set opened.buf (size + 1) (crc / 2 ^ 8 % 2 ^ 8)) (size + 2) i (crc % 2 ^ 8) 0
        (omega arith)
      ∙ get_or-set_ne opened.buf (size + 1) i (crc / 2 ^ 8 % 2 ^ 8) 0 (omega arith))

  crc_high : get_or sent.buf (size + 1) 0 ≡ crc / 2 ^ 8 % 2 ^ 8
  crc_high = rw buf_sent (
      get_or-set_ne (set opened.buf (size + 1) (crc / 2 ^ 8 % 2 ^ 8)) (size + 2) (size + 1)
        (crc % 2 ^ 8) 0 (omega arith)
      ∙ get_or-set_self opened.buf (size + 1) (crc / 2 ^ 8 % 2 ^ 8) 0
          (omega (arith, array_opened, size_fits)))

  crc_low : get_or sent.buf (size + 2) 0 ≡ crc % 2 ^ 8
  crc_low = rw buf_sent (
      get_or-set_self (set opened.buf (size + 1) (crc / 2 ^ 8 % 2 ^ 8)) (size + 2) (crc % 2 ^ 8) 0 (
        omega
          (arith, array_opened, size_fits, length-set opened.buf (size + 1) (crc / 2 ^ 8 % 2 ^ 8))))

  -- What the checksum covers is what is sent.
  covered : take (size + 15) wire ≡ take (size + 15) (uu_bytes opened)
  unfolding wire uu_wire uu_bytes
  covered =
      take-take_le (size + 15) sent.packetlen (uu_header sent ++ sent.buf)
        (omega (arith, packetlen_sent))
      ∙ split (uu_header sent) sent.buf length-header
      ∙ ap₂ ◌++◌ header_same same_data
      ∙ sym (split (uu_header opened) opened.buf (ap length (sym header_same) ∙ length-header))
    where
      split : (h xs : List ℕ) → length h ≡ 14 → take (size + 15) (h ++ xs) ≡ h ++ take (size + 1) xs
      split h xs e =
          let at : size + 15 ≡ length h + (size + 1) = omega arith in
          rw at (take-append_add h xs (size + 1))

      same_data : take (size + 1) sent.buf ≡ take (size + 1) opened.buf
      same_data = rw buf_sent (
          take-set_ge (size + 1) (size + 2) (set opened.buf (size + 1) (crc / 2 ^ 8 % 2 ^ 8))
            (crc % 2 ^ 8) (omega arith)
          ∙ take-set_ge (size + 1) (size + 1) opened.buf (crc / 2 ^ 8 % 2 ^ 8) (omega arith))

  opened-IsBytes : IsBytes (uu_bytes opened)
  unfolding uu_bytes opened encode_open uu_header inverseto inverseto_loop
  opened-IsBytes =
      let c = call in
      let filled =
        IsBytes-set (put (put packet.buf 0 data1) (length data1) data2) size etx
          (IsBytes-put data2 (put packet.buf 0 data1) (length data1)
            (IsBytes-put data1 packet.buf 0 c.stale c.bytes1) c.bytes2)
          c.etx_byte in
      (
        omega arith,
        (
          omega arith,
          (
            c.remote_byte,
            (
              omega arith,
              (
                omega arith,
                (
                  omega arith,
                  (
                    omega arith,
                    (
                      omega arith,
                      (
                        omega arith,
                        (
                          omega arith,
                          (c.cmd_byte, (omega arith, (omega arith, (c.stx_byte, filled)))),
                        ),
                      ),
                    ),
                  ),
                ),
              ),
            ),
          ),
        ),
      )

  crc-lt : crc < 2 ^ 16
  unfolding crc
  crc-lt = crc_calculate-lt (uu_bytes opened) (size + 15) opened-IsBytes

  -- The checksum that the receiver computes is the one at the end.
  pub sum_wire : crc_calculate wire (size + 15) ≡ ud_crc wire (size + 17)
  unfolding ud_crc
  sum_wire =
      let high : get_or wire (size + 17 - 2) 0 ≡ crc / 2 ^ 8 % 2 ^ 8 =
        ap (λ t. get_or wire t 0) (omega arith) ∙ wire_data (size + 1) (omega arith) ∙ crc_high in
      let low : get_or wire (size + 17 - 1) 0 ≡ crc % 2 ^ 8 =
        ap (λ t. get_or wire t 0) (omega arith) ∙ wire_data (size + 2) (omega arith) ∙ crc_low in
      rw (high, low)
        (crc_calculate-take (size + 15) wire (uu_bytes opened) (size + 15) covered (omega arith)
          ∙ crc_parts)
    where
      crc_parts :
          crc_calculate (uu_bytes opened) (size + 15)
          ≡ bit_or (crc / 2 ^ 8 % 2 ^ 8 * 2 ^ 8) (crc % 2 ^ 8)
      crc_parts =
          let e : crc ≡ crc_calculate (uu_bytes opened) (size + 15) = unfold crc in refl in
          sym e
          ∙ omega (
            arith,
            crc-lt,
            bit_or_low 8 8 (crc / 2 ^ 8 % 2 ^ 8) (crc % 2 ^ 8) (omega arith) (omega arith),
          )

  pub header_cells :
      (get_or (uu_header sent) 0 0 ≡ 0x7E)
      × (get_or (uu_header sent) 1 0 ≡ 0x7E)
      × (get_or (uu_header sent) 10 0 ≡ cmd)
      × (get_or (uu_header sent) 11 0 ≡ len_field up size % 256)
      × (get_or (uu_header sent) 12 0 ≡ len_field up size / 256 % 256)
  header_cells = rw header_same (cells size)
    where
      cells :
          (n : ℕ)
          → (get_or (uu_header opened) 0 0 ≡ 0x7E)
            × (get_or (uu_header opened) 1 0 ≡ 0x7E)
            × (get_or (uu_header opened) 10 0 ≡ cmd)
            × (get_or (uu_header opened) 11 0 ≡ len_field up size % 256)
            × (get_or (uu_header opened) 12 0 ≡ len_field up size / 256 % 256)
      cells n =
          unfold opened encode_open uu_header inverseto inverseto_loop in
          (refl, refl, refl, refl, refl)

  pub dlen_wire : ud_dlen wire ≡ down_bit up * 2 ^ 15 + size
  unfolding ud_dlen
  dlen_wire =
      let cell11 = wire_head 11 (omega arith) ∙ header_cells.3 in
      let cell12 = wire_head 12 (omega arith) ∙ header_cells.4 in
      let field = len_field-eq up size (omega (arith, size_fits)) in
      rw (cell11, cell12, field) (swapped size (down_bit up) size_fits (down_bit_le up))

  pub payload : take size (drop 14 wire) ≡ data1 ++ data2
  unfolding wire uu_wire
  payload =
      let parts : take sent.packetlen (uu_header sent ++ sent.buf)
          ≡ uu_header sent ++ take (size + 3) sent.buf =
        ap (λ t. take t (uu_header sent ++ sent.buf)) (omega (arith, packetlen_sent, length-header))
        ∙ take-append_add (uu_header sent) sent.buf (size + 3) in
      let behind : drop 14 (uu_header sent ++ take (size + 3) sent.buf) ≡ take (size + 3) sent.buf =
        ap (λ t. drop t (uu_header sent ++ take (size + 3) sent.buf)) (sym length-header)
        ∙ drop-append (uu_header sent) (take (size + 3) sent.buf) in
      ap (λ t. take size (drop 14 t)) parts
      ∙ ap (take size) behind
      ∙ take-take_le size (size + 3) sent.buf (omega arith)
      ∙ data_sent
    where
      data_opened : take size opened.buf ≡ data1 ++ data2
      data_opened =
          unfold opened encode_open size in
          take-set_ge (length data1 + length data2) (length data1 + length data2)
            (put (put packet.buf 0 data1) (length data1) data2) etx (omega arith)
          ∙ take-put data2 (put packet.buf 0 data1) (length data1)
              (omega (arith, call.fits, call.array, length-put data1 packet.buf 0))
          ∙ ap (λ t. t ++ data2)
              (ap (λ t. take t (put packet.buf 0 data1)) (omega arith)
                ∙ take-put data1 packet.buf 0 (omega (arith, call.fits, call.array)))

      data_sent : take size sent.buf ≡ data1 ++ data2
      data_sent =
          ap (take size) buf_sent
          ∙ take-set_ge size (size + 2) (set opened.buf (size + 1) (crc / 2 ^ 8 % 2 ^ 8))
              (crc % 2 ^ 8) (omega arith)
          ∙ take-set_ge size (size + 1) opened.buf (crc / 2 ^ 8 % 2 ^ 8) (omega arith)
          ∙ data_opened

  pub end_mark : get_or wire (14 + size) 0 ≡ etx
  end_mark = wire_data size (omega arith) ∙ buf_kept size (omega arith) ∙ marked
    where
      marked : get_or opened.buf size 0 ≡ etx
      marked =
          unfold opened encode_open in
          get_or-set_self (put (put packet.buf 0 data1) (length data1) data2) size etx 0 (
            omega (
              arith,
              size_fits,
              call.array,
              length-put data2 (put packet.buf 0 data1) (length data1),
              length-put data1 packet.buf 0,
            ))

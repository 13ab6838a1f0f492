-- ===== src/Packet/Encode/Frames.antt =====
-- What `upacket_encode` (app/up/packet/upacket.cpp) puts on the wire.
use yd.Prelude.{
  ℕ, ◌+◌, ◌-◌, ◌*◌, ◌^◌, List, ◌++◌, get_or, length, take, drop, false, ◌≡◌, sym, ap, ◌∙◌, arith,
}
use yd.Codec.Crc.{crc_calculate}
use yd.Packet.Frame.{ud_dlen, ud_crc, ud_cmd, IsFrame}
use yd.Packet.Encode.{UuPacket, uu_wire, upacket_encode}
use yd.Packet.Encode.Wire.{
  IsCall, size, sent, wire, length-wire, wire_head, header_cells, dlen_wire, payload, end_mark,
  sum_wire,
}

-- A frame encoded for the downlink direction, from byte-sized arguments and a payload of at most
-- PDSIZE - 3 bytes, is a valid frame of payload + 17 bytes, and carries the command, the two parts
-- of the payload in order, and the end mark.
pub upacket_encode-IsFrame :
    (packet : UuPacket) (remote local passwd cmd : ℕ) (data1 data2 : List ℕ) (stx etx : ℕ)
    → IsCall packet remote cmd data1 data2 stx etx
    → let w = uu_wire (upacket_encode packet false remote local passwd cmd data1 data2 stx etx) in
      let n = length data1 + length data2 in
      IsFrame w (length w)
      × (length w ≡ n + 17)
      × (ud_cmd w ≡ cmd)
      × (take n (drop 14 w) ≡ data1 ++ data2)
      × (get_or w (14 + n) 0 ≡ etx)
unfolding ud_cmd size wire sent
upacket_encode-IsFrame packet remote local passwd cmd data1 data2 stx etx call = (
  frame,
  length-wire packet false remote local passwd cmd data1 data2 stx etx call,
  wire_head packet false remote local passwd cmd data1 data2 stx etx call 10 (omega arith)
      ∙ (header_cells packet false remote local passwd cmd data1 data2 stx etx call).2,
  payload packet false remote local passwd cmd data1 data2 stx etx call,
  end_mark packet false remote local passwd cmd data1 data2 stx etx call,
)
  where
    w : List ℕ
    w = wire packet false remote local passwd cmd data1 data2 stx etx call

    long : length w ≡ length data1 + length data2 + 17
    long = length-wire packet false remote local passwd cmd data1 data2 stx etx call

    dlen : ud_dlen w ≡ 1 * 2 ^ 15 + (length data1 + length data2)
    dlen = dlen_wire packet false remote local passwd cmd data1 data2 stx etx call

    frame : IsFrame w (length w)
    frame = record {
      start0 =
          wire_head packet false remote local passwd cmd data1 data2 stx etx call 0 (omega arith)
          ∙ (header_cells packet false remote local passwd cmd data1 data2 stx etx call).0;
      start1 =
          wire_head packet false remote local passwd cmd data1 data2 stx etx call 1 (omega arith)
          ∙ (header_cells packet false remote local passwd cmd data1 data2 stx etx call).1;
      down = omega (arith, dlen, call.fits);
      size = omega (arith, dlen, long, call.fits);
      fits = omega (arith, long, call.fits);
      sum =
          let two : length w - 2 ≡ length data1 + length data2 + 15 = omega (arith, long) in
          ap (crc_calculate w) two
          ∙ sum_wire packet false remote local passwd cmd data1 data2 stx etx call
          ∙ ap (ud_crc w) (sym long);
    }

-- ===== src/Packet/Encode.antt =====
-- The frame encoder, `upacket_encode` and its two wrappers in app/up/packet/upacket.cpp.
pub mod Frames
pub mod LenField
pub mod Wire
use yd.Prelude.{
  ℕ, ◌+◌, ◌-◌, ◌*◌, ◌/◌, ◌%◌, ◌^◌, bit_or, List, [], ◌∷◌, ◌++◌, set, put, take, length, Bool, ltb,
  if◌then◌else◌,
}
use yd.Codec.Bcd.{le_bytes}
use yd.Codec.Order.{inverseto}
use yd.Codec.Crc.{crc_calculate}
use yd.Packet.Frame.{pdsize}

-- `UUPacket`, with the arrays `local`, `passwd` (two bytes) and `buf` (the source's `data`).
pub record UuPacket : Type 0 where
  pub start : ℕ
  pub remote : ℕ
  pub local : List ℕ
  pub passwd : List ℕ
  pub cmd : ℕ
  pub len : ℕ
  pub stx : ℕ
  pub buf : List ℕ
  pub packetlen : ℕ

-- The fields in front of the data, as they lie in memory.
unfoldable pub uu_header : UuPacket → List ℕ
uu_header p =
    le_bytes 2 p.start
    ++ (p.remote ∷ (p.local ++ (p.passwd ++ (p.cmd ∷ (le_bytes 2 p.len ++ (p.stx ∷ []))))))

-- `(u8*)packet`.
unfoldable pub uu_bytes : UuPacket → List ℕ
uu_bytes p = uu_header p ++ p.buf

-- What is handed to the device: the first `packetlen` bytes.
unfoldable pub uu_wire : UuPacket → List ℕ
unfolding uu_bytes
uu_wire p = take p.packetlen (uu_bytes p)

-- `packet->len`: the direction bit and the length, with the length's bytes swapped.
unfoldable pub len_field : Bool → ℕ → ℕ
len_field up len =
    bit_or (bit_or (if up then 0 else 0x0080) (len % 2 ^ 8 * 2 ^ 8)) (len / 2 ^ 8 % 2 ^ 8)

-- The station's frame with everything but its checksum.
unfoldable pub encode_open :
    UuPacket → Bool → ℕ → ℕ → ℕ → ℕ → List ℕ → List ℕ → ℕ → ℕ → ℕ → UuPacket
encode_open packet up remote local passwd cmd data1 data2 stx etx len = record {
  start = 0x7E7E;
  remote = remote;
  local = inverseto (le_bytes 8 local) 5;
  passwd = inverseto (le_bytes 2 passwd) 2;
  cmd = cmd;
  len = len_field up len;
  stx = stx;
  buf = set (put (put packet.buf 0 data1) (length data1) data2) len etx;
  packetlen = packet.packetlen;
}

-- `len` is replaced where the two parts do not fit the data array.
unfoldable pub encode_len : List ℕ → List ℕ → ℕ
encode_len data1 data2 =
    let len = length data1 + length data2 in if ltb (pdsize - 3) len then pdsize else len

unfoldable pub upacket_encode : UuPacket → Bool → ℕ → ℕ → ℕ → ℕ → List ℕ → List ℕ → ℕ → ℕ → UuPacket
upacket_encode packet up remote local passwd cmd data1 data2 stx etx =
    let len = encode_len data1 data2 in
    let p = encode_open packet up remote local passwd cmd data1 data2 stx etx len in
    let crc = crc_calculate (uu_bytes p) (len + 15) in
    record p {
      buf = set (set p.buf (len + 1) (crc / 2 ^ 8 % 2 ^ 8)) (len + 2) (crc % 2 ^ 8);
      packetlen = len + 17;
    }

-- The wrappers; `local` and `passwd` are the registers param[0x02] and param[0x03].
unfoldable pub upacket_encodehex : ℕ → ℕ → UuPacket → Bool → ℕ → ℕ → List ℕ → ℕ → ℕ → UuPacket
upacket_encodehex local passwd packet up remote cmd bytes stx etx =
    upacket_encode packet up remote local (passwd % 2 ^ 16) cmd [] bytes stx etx

-- The three bytes in front of each part of a multi-part report: `tmp` is a u32.
unfoldable pub m3_prefix : ℕ → ℕ → List ℕ
m3_prefix total sn = take 3 (le_bytes 4 (bit_or (total % 2 ^ 12 * 2 ^ 12) (sn % 2 ^ 12)))

unfoldable pub upacket_encodehex_m3 :
    ℕ → ℕ → UuPacket → Bool → ℕ → ℕ → ℕ → ℕ → List ℕ → ℕ → ℕ → UuPacket
upacket_encodehex_m3 local passwd packet up remote cmd total sn bytes stx etx =
    upacket_encode packet up remote local (passwd % 2 ^ 16) cmd (m3_prefix total sn) bytes stx etx

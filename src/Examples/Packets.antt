-- ===== src/Examples/Packets.antt =====
-- Runs of the frame encoder and decoder of app/up/packet/upacket.cpp.
use yd.Prelude.{
  ℕ, zero, suc, ◌+◌, List, [], ◌∷◌, ◌++◌, length, take, drop, get_or, replicate, length-replicate,
  true, false, ◌≡◌, ◌⊎◌, arith, IsBytes,
}
use yd.Packet.Frame.{pdsize, ud_size, ud_cmd, IsFrame}
use yd.Packet.Decode.{UdPacketCache, upacket_decode, unpack}
use yd.Packet.Decode.Frames.{InFrame, Received}
use yd.Packet.Decode.Sound.{upacket_decode_sound}
use yd.Packet.Decode.Complete.{upacket_decode_complete}
use yd.Packet.Encode.{UuPacket, uu_wire, upacket_encode}
use yd.Packet.Encode.Wire.{IsCall}
use yd.Packet.Encode.Frames.{upacket_encode-IsFrame}

-- A query (37H) for station 0x1122334455 with an empty body.
abbrev blank : UuPacket
blank = record {
  start = 0;
  remote = 0;
  local = [];
  passwd = [];
  cmd = 0;
  len = 0;
  stx = 0;
  buf = replicate (pdsize + 20) 0;
  packetlen = 0;
}

abbrev query : UuPacket
query = upacket_encode blank false 1 0x1122334455 0x1234 0x37 [] (1 ∷ 2 ∷ []) 2 5

zeros-IsBytes : (n : ℕ) → IsBytes (replicate n 0)
zeros-IsBytes zero = tt
zeros-IsBytes (suc n) = (omega arith, zeros-IsBytes n)

query-IsCall : IsCall blank 1 0x37 [] (1 ∷ 2 ∷ []) 2 5
query-IsCall = record {
  array = length-replicate {A = ℕ} (pdsize + 20) 0;
  stale = zeros-IsBytes (pdsize + 20);
  remote_byte = omega arith;
  cmd_byte = omega arith;
  bytes1 = tt;
  bytes2 = (omega arith, (omega arith, tt));
  stx_byte = omega arith;
  etx_byte = omega arith;
  fits = omega arith;
}

upacket_encode-IsFrame_example :
    IsFrame (uu_wire query) (length (uu_wire query))
    × (length (uu_wire query) ≡ 2 + 17)
    × (ud_cmd (uu_wire query) ≡ 0x37)
    × (take 2 (drop 14 (uu_wire query)) ≡ 1 ∷ 2 ∷ [])
    × (get_or (uu_wire query) (14 + 2) 0 ≡ 5)
upacket_encode-IsFrame_example =
    upacket_encode-IsFrame blank 1 0x1122334455 0x1234 0x37 [] (1 ∷ 2 ∷ []) 2 5 query-IsCall

abbrev idle : UdPacketCache
idle = record { state = 0; len = 0; p = replicate ud_size 0 }

upacket_decode_complete_example :
    ((upacket_decode idle (uu_wire query ++ []) false).1 ≡ true)
    × (q : List ℕ) × (take (length (uu_wire query)) q ≡ uu_wire query)
    × ((upacket_decode idle (uu_wire query ++ []) false).0
        ≡ record { state = 0; len = 0; p = unpack q (length (uu_wire query)) })
upacket_decode_complete_example =
    upacket_decode_complete (uu_wire query) [] (replicate ud_size 0)
      (length-replicate {A = ℕ} ud_size 0) upacket_encode-IsFrame_example.0

upacket_decode_sound_example :
    ((upacket_decode (upacket_decode idle [] true).0 (uu_wire query) false).1 ≡ true)
      × Received
          (uu_wire query)
          (upacket_decode (upacket_decode idle [] true).0 (uu_wire query) false).0
    ⊎ ((upacket_decode (upacket_decode idle [] true).0 (uu_wire query) false).1 ≡ false)
      × InFrame (upacket_decode (upacket_decode idle [] true).0 (uu_wire query) false).0
upacket_decode_sound_example = upacket_decode_sound idle (uu_wire query)

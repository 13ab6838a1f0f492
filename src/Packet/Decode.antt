-- ===== src/Packet/Decode.antt =====
-- The frame decoder, `upacket_decode` of app/up/packet/upacket.cpp, a state machine over bytes that
-- keeps its place between calls.
pub mod Invariant
pub mod Frames
pub mod Sound
pub mod Complete
use yd.Prelude.{
  ℕ, zero, suc, ◌+◌, ◌-◌, ◌/◌, ◌%◌, ◌^◌, List, [], ◌∷◌, set, put, get_or, replicate, Bool, true,
  false, not, ltb, ◌==◌, if◌then◌else◌,
}
use yd.Codec.Bcd.{le_bytes}
use yd.Codec.Order.{inverseto}
use yd.Codec.Crc.{crc_calculate}
use yd.Packet.Frame.{ud_size, ud_local, ud_passwd, ud_packetlen, ud_dlen, ud_crc}

-- `p` is the memory of the packet under construction, `len` how much of it is filled.
pub record UdPacketCache : Type 0 where
  pub state : ℕ
  pub len : ℕ
  pub p : List ℕ

-- How the processing of a byte ends: the loop goes on, the function returns NULL, or it returns
-- the packet.
pub data Outcome : Type 0 where
  go_on : UdPacketCache → Outcome
  drop_rest : UdPacketCache → Outcome
  got : UdPacketCache → Outcome

-- `DECODE_ERROR`.
abbrev pub decode_error : UdPacketCache → UdPacketCache
decode_error c = record c { state = 0; len = 0 }

-- What is filled in behind a complete frame of `n` bytes: packetlen, etx, and the station address
-- and password with their bytes reversed.
unfoldable pub unpack : List ℕ → ℕ → List ℕ
unpack p n =
    let p1 = put p 1058 (le_bytes 4 n) in
    let p2 = set p1 1062 (get_or p1 (ud_packetlen p1 - 3) 0) in
    let p3 = put p2 1063 (inverseto (ud_local p2) 5) in put p3 1071 (inverseto (ud_passwd p3) 2)

-- State 8: the bytes behind the fixed fields.
unfoldable pub decode_body : UdPacketCache → Outcome
decode_body c =
    let dlen = ud_dlen c.p in
    if not (dlen / 2 ^ 15 % 2 == 1)
    then drop_rest c
    else if ltb c.len (dlen % 2 ^ 12 + 14 + 1 + 2)
    then go_on c
    else if crc_calculate c.p (c.len - 2) == ud_crc c.p c.len
    then got (record { state = 0; len = 0; p = unpack c.p c.len })
    else go_on (decode_error c)

-- The switch, after the byte has been stored.
unfoldable pub decode_switch : UdPacketCache → ℕ → Outcome
decode_switch c b =
    if c.state == 0
    then (if b == 0x7E
        then go_on (record c { state = if c.len == 2 then 1 else 0 })
        else go_on (decode_error c))
    else if c.state == 1
    then go_on (record c { state = if c.len == 7 then 2 else 1 })
    else if c.state == 2
    then go_on (record c { state = 3 })
    else if c.state == 3
    then go_on (record c { state = if c.len == 10 then 4 else 3 })
    else if c.state == 4
    then go_on (record c { state = 5 })
    else if c.state == 5
    then go_on (record c { state = 6 })
    else if c.state == 6
    then go_on (record c { state = 7 })
    else if c.state == 7
    then go_on (record c { state = 8 })
    else if c.state == 8
    then decode_body c
    else go_on (decode_error c)

abbrev pub store : UdPacketCache → ℕ → UdPacketCache
store c b = record c { p = set c.p c.len b; len = c.len + 1 }

-- A full buffer is dropped, and the same byte is looked at again.
unfoldable pub decode_byte : UdPacketCache → ℕ → Outcome
decode_byte c b =
    if ltb c.len ud_size
    then decode_switch (store c b) b
    else decode_switch (store (decode_error c) b) b

-- The loop over the bytes received; the flag says that a packet is returned.
unfoldable pub decode_loop : UdPacketCache → List ℕ → UdPacketCache × Bool
decode_loop c [] = (c, false)
decode_loop c (b ∷ bs) = elim (decode_byte c b) [
  | go_on c' ↦ decode_loop c' bs
  | drop_rest c' ↦ (c', false)
  | got c' ↦ (c', true)
]

unfoldable pub upacket_decode : UdPacketCache → List ℕ → Bool → UdPacketCache × Bool
upacket_decode ud datain reset =
    if reset
    then (record { state = 0; len = 0; p = replicate ud_size 0 }, false)
    else decode_loop ud datain

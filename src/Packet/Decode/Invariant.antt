-- ===== src/Packet/Decode/Invariant.antt =====
-- What holds of the receive cache of app/up/packet/upacket.cpp between two bytes.
use yd.Prelude.{
  ℕ, ◌+◌, ◌-◌, ◌≤◌, ◌<◌, List, set, get_or, length, put, length-set, length-put, ltb, if◌then◌else◌,
  ◌≡◌, ◌≢◌, ◌⊎◌, refl, ◌∙◌, arith,
}
use yd.Codec.Bcd.{le_bytes}
use yd.Codec.Order.{inverseto}
use yd.Packet.Frame.{ud_size, ud_local, ud_passwd, ud_packetlen}
use yd.Packet.Decode.{
  UdPacketCache, Outcome, go_on, drop_rest, got, decode_error, unpack, decode_body, decode_switch,
  store, decode_byte,
}

-- The state is a function of the fill level.
abbrev pub state_at : ℕ → ℕ
state_at n =
    if ltb n 2
    then 0
    else if ltb n 7
    then 1
    else if ltb n 8
    then 2
    else if ltb n 10
    then 3
    else if ltb n 11
    then 4
    else if ltb n 12
    then 5
    else if ltb n 13
    then 6
    else if ltb n 14
    then 7
    else 8

pub record IsCache (c : UdPacketCache) : Type 0 where
  pub in_step : c.state ≡ state_at c.len
  pub bounded : c.len ≤ ud_size
  pub whole : length c.p ≡ ud_size

-- The cache that a step leaves.
abbrev pub after : Outcome → UdPacketCache
after (go_on c) = c
after (drop_rest c) = c
after (got c) = c

pub length-unpack : (p : List ℕ) (n : ℕ) → length (unpack p n) ≡ length p
unfolding unpack
length-unpack p n =
    let p1 = put p 1058 (le_bytes 4 n) in
    let p2 = set p1 1062 (get_or p1 (ud_packetlen p1 - 3) 0) in
    let p3 = put p2 1063 (inverseto (ud_local p2) 5) in
    length-put (inverseto (ud_passwd p3) 2) p3 1071
    ∙ length-put (inverseto (ud_local p2) 5) p2 1063
    ∙ length-set p1 1062 (get_or p1 (ud_packetlen p1 - 3) 0)
    ∙ length-put (le_bytes 4 n) p 1058

-- The four ways of a byte. A wrong start byte:
pub decode_byte_bad :
    (c : UdPacketCache) (b : ℕ)
    → IsCache c
    → c.len < 2
    → b ≢ 0x7E
    → decode_byte c b ≡ go_on (decode_error (store c b))
unfolding decode_byte decode_switch
decode_byte_bad c b h l ne = ground arith

-- A byte of the fixed fields, or a right start byte:
pub decode_byte_head :
    (c : UdPacketCache) (b : ℕ)
    → IsCache c
    → c.len < 14
    → (2 ≤ c.len) ⊎ (b ≡ 0x7E)
    → decode_byte c b ≡ go_on (record (store c b) { state = state_at (c.len + 1) })
unfolding decode_byte decode_switch
decode_byte_head c b h l s = ground arith

-- A byte behind them:
pub decode_byte_body :
    (c : UdPacketCache) (b : ℕ)
    → IsCache c
    → 14 ≤ c.len
    → c.len < ud_size
    → decode_byte c b ≡ decode_body (store c b)
unfolding decode_byte decode_switch
decode_byte_body c b h l s = ground arith

-- A full buffer:
pub decode_byte_full :
    (c : UdPacketCache) (b : ℕ)
    → IsCache c
    → c.len ≡ ud_size
    → decode_byte c b ≡ decode_byte (decode_error c) b
unfolding decode_byte
decode_byte_full c b h l = ground arith

pub store-IsCache :
    (c : UdPacketCache) (b : ℕ)
    → IsCache c
    → c.len < ud_size
    → IsCache (record (store c b) { state = state_at (c.len + 1) })
store-IsCache c b h l = record {
  in_step = refl;
  bounded = omega arith;
  whole = length-set c.p c.len b ∙ h.whole;
}

pub error-IsCache : (c : UdPacketCache) → IsCache c → IsCache (decode_error c)
error-IsCache c h = record { in_step = refl; bounded = omega arith; whole = h.whole }

decode_body-IsCache : (c : UdPacketCache) → IsCache c → IsCache (after (decode_body c))
unfolding decode_body
decode_body-IsCache c h = ground (arith, length-unpack c.p c.len)

-- ===== src/Channel/First.antt =====
-- Which address is dialled, get_ip_port and get_sendmode of app/up/thread_up.cpp.
use yd.Prelude.{
  ℕ, ◌+◌, ◌%◌, ◌^◌, ◌<◌, List, [], ◌∷◌, get_or, length, some, Bool, true, false, ltb, le→ltb_false,
  ◌≡◌, ◌⊎◌, inl, inr, refl, sym, subst, none, arith,
}
use yd.Prelude.Int.{pos}
use yd.Link.{DeviceState, ds_null, ds_connecting, ds_open, ds_wait}
use yd.Center.Header.{Station, set_current_remote}
use yd.Channel.{connect, keepalive, Channel, Chosen, get_ip_port, dial, get_sendmode}

get_ip_port_first :
    (remote : List (List ℕ)) (center : List ℕ)
    → get_ip_port remote center 0x04 ≡ some (get_or remote 0 [], get_or center 0 0 % 2 ^ 8)
unfolding get_ip_port
get_ip_port_first remote center =
    let r : ltb (length remote) 0 ≡ false = le→ltb_false (length remote) 0 (omega arith) in
    let c : ltb (length center) 0 ≡ false = le→ltb_false (length center) 0 (omega arith) in
    rw (r, c) refl

-- The choice left the connection alone, or dialled the first address of the settings.
abbrev pub Untouched : Channel → Chosen → Type 0
Untouched c r = (r.channel ≡ c) × ((r.result ≡ pos 0) ⊎ (r.result ≡ pos 1))

abbrev pub DialledFirst : List (List ℕ) → Channel → Chosen → Type 0
DialledFirst remote c r =
    (r.channel.calls ≡ connect (get_or remote 0 []) ∷ keepalive true ∷ c.calls) × (r.result ≡ pos 0)

dial-DialledFirst :
    (remote : List (List ℕ)) (center : List ℕ) (s : Station) (c : Channel)
    → DialledFirst remote c (dial remote center s c 0x04 8)
unfolding dial
dial-DialledFirst remote center s c =
    subst
      (λ o. DialledFirst remote c (elim o as (λ x. Chosen) [
        | none ↦ dial remote center s c (0x04 + 1) 7
        | some (ip, number) ↦ record {
          station = set_current_remote s number;
          channel = record c { calls = connect ip ∷ keepalive true ∷ c.calls };
          result = pos 0;
        }
      ]))
      (sym (get_ip_port_first remote center)) (refl, refl)

-- With settings that have an address and a center at least, the connection to the center is never refused:
-- whatever the state of the device, the choice leaves the connection alone with 0 or 1, or dials and gives 0, and the address that it
-- dials is always the first one of the settings, never a spare one.
pub get_sendmode-DialledFirst :
    (remote : List (List ℕ)) (center : List ℕ) (opened : Bool) (state : DeviceState) (s : Station)
    (c : Channel)
    → 0 < length remote
    → 0 < length center
    → Untouched c (get_sendmode remote center opened state s c)
      ⊎ DialledFirst remote c (get_sendmode remote center opened state s c)
unfolding get_sendmode
get_sendmode-DialledFirst remote center true state s c some_remote some_center =
    inl (refl, inr refl)
get_sendmode-DialledFirst remote center false ds_null s c some_remote some_center =
    inr (dial-DialledFirst remote center s c)
get_sendmode-DialledFirst remote center false ds_connecting s c some_remote some_center =
    inl (refl, inl refl)
get_sendmode-DialledFirst remote center false ds_open s c some_remote some_center =
    inl (refl, inr refl)
get_sendmode-DialledFirst remote center false ds_wait s c some_remote some_center =
    inl (refl, inl refl)

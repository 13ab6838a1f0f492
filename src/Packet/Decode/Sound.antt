-- ===== src/Packet/Decode/Sound.antt =====
-- What `upacket_decode` (app/up/packet/upacket.cpp) returns is a run of received bytes that forms a
-- valid downlink frame.
use mathlib.Core.List.{append_assoc}
use yd.Prelude.{
  ℕ, List, [], ◌∷◌, ◌++◌, take, length-replicate, Bool, true, false, Bool-cases, ◌≡◌, ◌⊎◌, inl, inr,
  refl, ap, ◌∙◌, arith,
}
use yd.Packet.Frame.{ud_size}
use yd.Packet.Decode.{
  UdPacketCache, Outcome, go_on, drop_rest, got, decode_byte, decode_loop, upacket_decode,
}
use yd.Packet.Decode.Frames.{InFrame, EndsWith, Received, Good, decode_byte-Good}

Received-append : (hs ys : List ℕ) (c : UdPacketCache) → Received hs c → Received (hs ++ ys) c
Received-append hs ys c r = record {
  before = r.before;
  buffer = r.buffer;
  size = r.size;
  behind = r.behind ++ ys;
  in_input =
      ap (λ t. t ++ ys) r.in_input ∙ append_assoc (r.before ++ take r.size r.buffer) r.behind ys;
  frame = r.frame;
  packet = r.packet;
}

decode_loop_sound :
    (bs hs : List ℕ) (c : UdPacketCache)
    → InFrame c
    → EndsWith hs (take c.len c.p)
    → ((decode_loop c bs).1 ≡ true → Received (hs ++ bs) (decode_loop c bs).0)
      × ((decode_loop c bs).1 ≡ false → InFrame (decode_loop c bs).0)
unfolding decode_loop
decode_loop_sound [] hs c f w = (λ e. cc, λ e. f)
decode_loop_sound (b ∷ bs) hs c f w =
    next (decode_byte c b) (decode_byte-Good hs c b f w) (decode_loop_sound bs (hs ++ b ∷ []))
  where
    next :
        (o : Outcome)
        → Good (hs ++ b ∷ []) o
        → ((c' : UdPacketCache)
            → InFrame c'
            → EndsWith (hs ++ b ∷ []) (take c'.len c'.p)
            → ((decode_loop c' bs).1 ≡ true → Received (hs ++ b ∷ [] ++ bs) (decode_loop c' bs).0)
              × ((decode_loop c' bs).1 ≡ false → InFrame (decode_loop c' bs).0))
        → let r : UdPacketCache × Bool = elim o [
          | go_on c' ↦ decode_loop c' bs
          | drop_rest c' ↦ (c', false)
          | got c' ↦ (c', true)
        ] in
          (r.1 ≡ true → Received (hs ++ b ∷ bs) r.0) × (r.1 ≡ false → InFrame r.0)
    next (go_on c') (f', w') ih =
        let (yes_case, no_case) = ih c' f' w' in
        (λ e. rw (append_assoc hs (b ∷ []) bs) at (yes_case e), no_case)
    next (drop_rest c') f' ih = (λ e. cc, λ e. f')
    next (got c') r ih =
        (λ e. rw (append_assoc hs (b ∷ []) bs) at (Received-append (hs ++ b ∷ []) bs c' r), λ e. cc)

-- The cache that a reset leaves holds the (empty) beginning of a frame.
pub reset-InFrame : (ud : UdPacketCache) → InFrame (upacket_decode ud [] true).0
unfolding upacket_decode
reset-InFrame ud = record {
  cache = record {
    in_step = refl;
    bounded = omega arith;
    whole = length-replicate {A = ℕ} ud_size 0;
  };
  start0 = λ l. absurd (omega arith);
  start1 = λ l. absurd (omega arith);
  unfinished = λ l. absurd (omega arith);
}

-- After a reset, whatever bytes arrive: either a packet is returned, and it was built from a run of
-- those bytes that is a frame (start bytes, downlink direction, length field and checksum all
-- valid); or none is, and the cache again holds the beginning of a frame, its state in step with its
-- fill level and its fill level within the buffer.
pub upacket_decode_sound :
    (ud : UdPacketCache) (datain : List ℕ)
    → let r = upacket_decode (upacket_decode ud [] true).0 datain false in
      (r.1 ≡ true) × Received datain r.0 ⊎ (r.1 ≡ false) × InFrame r.0
unfolding upacket_decode
upacket_decode_sound ud datain =
    let start = (upacket_decode ud [] true).0 in
    let (found, unfound) = decode_loop_sound datain [] start (reset-InFrame ud) ([], refl) in
    elim (Bool-cases (decode_loop start datain).1) [
      | inl whole ↦ inl (whole, found whole)
      | inr part ↦ inr (part, unfound part)
    ]

-- ===== src/Packet/Decode/Complete.antt =====
-- Every downlink frame is accepted by `upacket_decode` (app/up/packet/upacket.cpp), wherever its
-- bytes come to an end, and the bytes behind it are left alone.
use mathlib.Core.List.{append_assoc}
use yd.Prelude.{
  ℕ, suc, ◌+◌, ◌-◌, ◌≤◌, ◌<◌, List, [], ◌∷◌, ◌++◌, set, get_or, length, take, length-append,
  get_or-take, get_or-append_left, get_or-append_right, take-set, take_all, true, false, ltb,
  ltb→lt, ltb_false→le, ◌==◌, ==_iff, ==_ne, Bool-cases, ◌≡◌, ◌⊎◌, inl, inr, refl, sym, ap, ◌∙◌,
  arith,
}
use yd.Codec.Crc.{crc_calculate}
use yd.Codec.Crc.Detect.{crc_calculate-take}
use yd.Packet.Frame.{ud_size, ud_dlen, ud_crc, IsFrame}
use yd.Packet.Decode.{
  UdPacketCache, go_on, got, unpack, decode_body, store, decode_byte, decode_loop, upacket_decode,
}
use yd.Packet.Decode.Invariant.{
  IsCache, state_at, decode_byte_head, decode_byte_body, store-IsCache,
}

-- A buffer whose first cells are `zs` agrees with any list that begins with `zs`.
agrees :
    (p zs ws : List ℕ) (i : ℕ)
    → take (length zs) p ≡ zs
    → i < length zs
    → get_or p i 0 ≡ get_or (zs ++ ws) i 0
agrees p zs ws i e h =
    sym (get_or-take (length zs) i p 0 h)
    ∙ ap (λ t. get_or t i 0) e
    ∙ sym (get_or-append_left zs ws i 0 h)

ud_dlen_alike :
    (p q : List ℕ)
    → get_or p 11 0 ≡ get_or q 11 0
    → get_or p 12 0 ≡ get_or q 12 0
    → ud_dlen p ≡ ud_dlen q
unfolding ud_dlen
ud_dlen_alike p q e h = rw (e, h)

ud_dlen_agrees :
    (p zs ws : List ℕ) → take (length zs) p ≡ zs → 12 < length zs → ud_dlen p ≡ ud_dlen (zs ++ ws)
ud_dlen_agrees p zs ws e h =
    ud_dlen_alike p (zs ++ ws) (agrees p zs ws 11 e (omega arith))
      (agrees p zs ws 12 e (omega arith))

-- Filling the buffer one byte further.
filled :
    (c : UdPacketCache) (xs : List ℕ) (y : ℕ)
    → IsCache c
    → c.len ≡ length xs
    → c.len < ud_size
    → take (length xs) c.p ≡ xs
    → take (length (xs ++ y ∷ [])) (set c.p c.len y) ≡ xs ++ y ∷ []
filled c xs y h e l t =
    let more : length (xs ++ y ∷ []) ≡ suc (length xs) = omega (arith, length-append xs (y ∷ [])) in
    rw (more, e, take-set (length xs) c.p y (omega (arith, h.whole)), t)

abbrev Accepted : UdPacketCache → List ℕ → List ℕ → Type 0
Accepted c fr bs =
    ((decode_loop c bs).1 ≡ true)
    × (q : List ℕ) × (take (length fr) q ≡ fr)
    × ((decode_loop c bs).0 ≡ record { state = 0; len = 0; p = unpack q (length fr) })

-- The last byte completes the packet.
decode_body_last :
    (c : UdPacketCache) (fr : List ℕ)
    → c.len ≡ length fr
    → take (length fr) c.p ≡ fr
    → IsFrame fr (length fr)
    → decode_body c ≡ got (record { state = 0; len = 0; p = unpack c.p (length fr) })
unfolding decode_body ud_crc
decode_body_last c fr e t f =
    let n = length fr in
    let long : 17 ≤ n = omega (arith, f.size) in
    let cell = λ (i : ℕ) (lt : i < n). sym (get_or-take n i c.p 0 lt) ∙ ap (λ s. get_or s i 0) t in
    let same : ud_dlen c.p ≡ ud_dlen fr =
      ud_dlen_alike c.p fr (cell 11 (omega arith)) (cell 12 (omega arith)) in
    let sums : crc_calculate c.p (n - 2) ≡ crc_calculate fr (n - 2) =
      crc_calculate-take n c.p fr (n - 2) (t ∙ sym (take_all n fr (omega arith))) (omega arith) in
    let d = f.down in
    let s = f.size in
    rw (same, e, sums, cell (n - 2) (omega arith), cell (n - 1) (omega arith), f.sum) (ground arith)

decode_body_more :
    (c : UdPacketCache) (zs ws : List ℕ)
    → c.len ≡ length zs
    → take (length zs) c.p ≡ zs
    → 14 < length zs
    → 0 < length ws
    → IsFrame (zs ++ ws) (length (zs ++ ws))
    → decode_body c ≡ go_on c
unfolding decode_body
decode_body_more c zs ws e t l n f =
    let same = ud_dlen_agrees c.p zs ws t (omega arith) in
    let d = f.down in let s = f.size in rw same (ground (arith, length-append zs ws))

loop_on :
    (c c' : UdPacketCache) (b : ℕ) (bs : List ℕ)
    → decode_byte c b ≡ go_on c'
    → decode_loop c (b ∷ bs) ≡ decode_loop c' bs
unfolding decode_loop
loop_on c c' b bs e = rw (e, decode_loop)

loop_got :
    (c c' : UdPacketCache) (b : ℕ) (bs : List ℕ)
    → decode_byte c b ≡ got c'
    → decode_loop c (b ∷ bs) ≡ (c', true)
unfolding decode_loop
loop_got c c' b bs e = rw (e, decode_loop)

empty : (ys : List ℕ) → length ys ≤ 0 → [] ≡ ys
empty [] h = refl
empty (y ∷ ys) h = absurd (omega arith)

-- The byte that comes next is the frame's.
next_byte : (xs ys : List ℕ) (y : ℕ) → get_or (xs ++ y ∷ ys) (length xs) 0 ≡ y
next_byte xs ys y =
    let at : length xs + 0 ≡ length xs = omega arith in
    rw at at (get_or-append_right xs (y ∷ ys) 0 0)

-- The rest `ys` of a frame that begins with `xs` arrives, and then anything.
from-Accepted :
    (ys xs rest : List ℕ) (c : UdPacketCache)
    → IsCache c
    → c.len ≡ length xs
    → take (length xs) c.p ≡ xs
    → 0 < length ys
    → IsFrame (xs ++ ys) (length (xs ++ ys))
    → Accepted c (xs ++ ys) (ys ++ rest)
from-Accepted [] xs rest c h e t pos f = absurd (omega arith)
from-Accepted (y ∷ ys) xs rest c h e t pos f =
    let zs = xs ++ y ∷ [] in
    let regroup : xs ++ y ∷ ys ≡ zs ++ ys = sym (append_assoc xs (y ∷ []) ys) in
    let lz : length zs ≡ length xs + 1 = omega (arith, length-append xs (y ∷ [])) in
    let room : c.len < ud_size = omega (arith, f.fits, length-append xs (y ∷ ys)) in
    let long : 17 ≤ length (xs ++ y ∷ ys) = omega (arith, f.size) in
    let stored = filled c xs y h e room t in
    elim (Bool-cases (ltb c.len 14)) [
      | inl head ↦
          let early = ltb→lt c.len 14 head in
          let more : 0 < length ys = omega (arith, length-append xs (y ∷ ys)) in
          let ih =
            from-Accepted ys zs rest (record (store c y) { state = state_at (c.len + 1) })
              (store-IsCache c y h room) (omega arith) stored more (rw regroup at f) in
          let step = decode_byte_head c y h early (start_byte early) in
          rw (loop_on c (record (store c y) { state = state_at (c.len + 1) }) y (ys ++ rest) step)
            (rw regroup ih)
      | inr body ↦
          let deep = ltb_false→le c.len 14 body in
          let step = decode_byte_body c y h deep room in
          elim (Bool-cases (ltb 0 (length ys))) [
            | inl some_left ↦
                let more = ltb→lt 0 (length ys) some_left in
                let ih =
                  from-Accepted ys zs rest (store c y) (stored_cache deep room) (omega arith) stored
                    more (rw regroup at f) in
                let kept =
                  decode_body_more (store c y) zs ys (omega arith) stored (omega arith) more
                    (rw regroup at f) in
                rw (loop_on c (store c y) y (ys ++ rest) (step ∙ kept)) (rw regroup ih)
            | inr none_left ↦
                let whole : zs ≡ xs ++ y ∷ ys = ended (ltb_false→le 0 (length ys) none_left) in
                let done =
                  decode_body_last (store c y) (xs ++ y ∷ ys) (rw (← whole) (omega arith))
                    (rw whole at stored) f in
                rw
                  (loop_got c
                    (record {
                      state = 0;
                      len = 0;
                      p = unpack (set c.p c.len y) (length (xs ++ y ∷ ys));
                    })
                    y (ys ++ rest) (step ∙ done))
                  (refl, set c.p c.len y, rw whole at stored, refl)
          ]
    ]
  where
    stored_cache : 14 ≤ c.len → c.len < ud_size → IsCache (store c y)
    stored_cache deep room = ground (arith, store-IsCache c y h room)

    start_byte : c.len < 14 → (2 ≤ c.len) ⊎ (y ≡ 0x7E)
    start_byte early = elim (Bool-cases (ltb c.len 2)) [
      | inr past ↦ inl (ltb_false→le c.len 2 past)
      | inl first ↦ elim (Bool-cases (c.len == 0)) [
        | inl at0 ↦
            let z : length xs ≡ 0 = omega (arith, (==_iff c.len 0).0 at0) in
            inr (sym (next_byte xs ys y) ∙ rw z f.start0)
        | inr not0 ↦
            let z : length xs ≡ 1 = omega (arith, ==_ne c.len 0 not0, ltb→lt c.len 2 first) in
            inr (sym (next_byte xs ys y) ∙ rw z f.start1)
      ]
    ]

    ended : length ys ≤ 0 → xs ++ y ∷ [] ≡ xs ++ y ∷ ys
    ended none_left = ap (λ t. xs ++ y ∷ t) (empty ys none_left)

-- A downlink frame that arrives whole is returned, whatever the buffer held before and whatever
-- follows: the loop ends with a packet made of a buffer that begins with exactly the frame's bytes,
-- and the cache is ready for the next one.
pub upacket_decode_complete :
    (fr rest p : List ℕ)
    → length p ≡ ud_size
    → IsFrame fr (length fr)
    → let r = upacket_decode (record { state = 0; len = 0; p = p }) (fr ++ rest) false in
      (r.1 ≡ true)
      × (q : List ℕ) × (take (length fr) q ≡ fr)
      × (r.0 ≡ record { state = 0; len = 0; p = unpack q (length fr) })
unfolding upacket_decode
upacket_decode_complete fr rest p w f =
    from-Accepted fr [] rest (record { state = 0; len = 0; p = p })
      (record { in_step = refl; bounded = omega arith; whole = w }) refl refl
      (omega (arith, f.size)) f

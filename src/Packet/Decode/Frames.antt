-- ===== src/Packet/Decode/Frames.antt =====
-- What the bytes of a frame do to the cache of `upacket_decode` (app/up/packet/upacket.cpp).
use mathlib.Core.List.{append_assoc, append-nil}
use yd.Prelude.{
  ℕ, suc, ◌+◌, ◌-◌, ◌/◌, ◌%◌, ◌^◌, ◌≤◌, ◌<◌, List, [], ◌∷◌, ◌++◌, set, get_or, take, get_or-set_ne,
  get_or-set_self, take-set, ltb, ltb→lt, ltb_false→le, ◌==◌, ==_iff, ==_ne, Bool-cases, ◌≡◌, ◌⊎◌,
  inl, inr, refl, sym, ◌∙◌, arith,
}
use yd.Codec.Crc.{crc_calculate}
use yd.Packet.Frame.{ud_size, ud_dlen, ud_crc, IsFrame}
use yd.Packet.Decode.{
  UdPacketCache, Outcome, go_on, drop_rest, got, decode_error, unpack, decode_body, store,
  decode_byte,
}
use yd.Packet.Decode.Invariant.{
  IsCache, state_at, decode_byte_bad, decode_byte_head, decode_byte_body, decode_byte_full,
  store-IsCache, error-IsCache,
}

-- A cache that holds the beginning of a frame.
pub record InFrame (c : UdPacketCache) : Type 0 where
  pub cache : IsCache c
  pub start0 : 1 ≤ c.len → get_or c.p 0 0 ≡ 0x7E
  pub start1 : 2 ≤ c.len → get_or c.p 1 0 ≡ 0x7E
  pub unfinished : 15 ≤ c.len → ud_dlen c.p / 2 ^ 15 % 2 ≡ 1 → c.len < ud_dlen c.p % 2 ^ 12 + 17

-- The received bytes end with what the cache holds.
abbrev pub EndsWith : List ℕ → List ℕ → Type 0
EndsWith hs xs = (pre : List ℕ) × (hs ≡ pre ++ xs)

-- A frame that stands in the received bytes, and the packet made of it.
pub record Received (hs : List ℕ) (c : UdPacketCache) : Type 0 where
  pub before : List ℕ
  pub buffer : List ℕ
  pub size : ℕ
  pub behind : List ℕ
  pub in_input : hs ≡ before ++ take size buffer ++ behind
  pub frame : IsFrame buffer size
  pub packet : c ≡ record { state = 0; len = 0; p = unpack buffer size }

abbrev pub Good : List ℕ → Outcome → Type 0
Good hs (go_on c) = InFrame c × EndsWith hs (take c.len c.p)
Good hs (drop_rest c) = InFrame c
Good hs (got c) = Received hs c

ud_dlen-set : (p : List ℕ) (i b : ℕ) → 13 ≤ i → ud_dlen (set p i b) ≡ ud_dlen p
unfolding ud_dlen
ud_dlen-set p i b h =
    rw (get_or-set_ne p i 11 b 0 (omega arith), get_or-set_ne p i 12 b 0 (omega arith))

-- A dropped beginning leaves an empty cache.
error-Good : (hs : List ℕ) (c : UdPacketCache) → IsCache c → Good hs (go_on (decode_error c))
error-Good hs c h = (
  record {
    cache = error-IsCache c h;
    start0 = λ l. absurd (omega arith);
    start1 = λ l. absurd (omega arith);
    unfinished = λ l. absurd (omega arith);
  },
  (hs, sym (append-nil hs)),
)

-- The stored byte is the newest one of the prefix.
store-EndsWith :
    (hs : List ℕ) (c : UdPacketCache) (b : ℕ)
    → IsCache c
    → c.len < ud_size
    → EndsWith hs (take c.len c.p)
    → EndsWith (hs ++ b ∷ []) (take (c.len + 1) (set c.p c.len b))
store-EndsWith hs c b h l (pre, e) =
    let one_more : c.len + 1 ≡ suc c.len = omega arith in
    (
      pre,
      rw (one_more, take-set c.len c.p b (omega (arith, h.whole)), e)
          (append_assoc pre (take c.len c.p) (b ∷ [])),
    )

decode_body-Good :
    (hs : List ℕ) (c : UdPacketCache)
    → IsCache c
    → 15 ≤ c.len
    → get_or c.p 0 0 ≡ 0x7E
    → get_or c.p 1 0 ≡ 0x7E
    → (ud_dlen c.p / 2 ^ 15 % 2 ≡ 1 → c.len ≤ ud_dlen c.p % 2 ^ 12 + 17)
    → EndsWith hs (take c.len c.p)
    → Good hs (decode_body c)
unfolding decode_body
decode_body-Good hs c h l s0 s1 room (pre, e) = elim (Bool-cases (ud_dlen c.p / 2 ^ 15 % 2 == 1)) [
  | inr up ↦ rw up (record {
    cache = h;
    start0 = λ _. s0;
    start1 = λ _. s1;
    unfinished = λ _ d. absurd (==_ne (ud_dlen c.p / 2 ^ 15 % 2) 1 up d);
  })
  | inl down ↦
      let dir = (==_iff (ud_dlen c.p / 2 ^ 15 % 2) 1).0 down in
      rw down (elim (Bool-cases (ltb c.len (ud_dlen c.p % 2 ^ 12 + 14 + 1 + 2))) [
        | inl short ↦ rw short (
          record {
            cache = h;
            start0 = λ _. s0;
            start1 = λ _. s1;
            unfinished =
                λ _ _. omega (arith, ltb→lt c.len (ud_dlen c.p % 2 ^ 12 + 14 + 1 + 2) short);
          },
          (pre, e),
        )
        | inr full ↦
            rw full (elim (Bool-cases (crc_calculate c.p (c.len - 2) == ud_crc c.p c.len)) [
              | inr wrong ↦ rw wrong (error-Good hs c h)
              | inl right ↦ rw right (record {
                before = pre;
                buffer = c.p;
                size = c.len;
                behind = [];
                in_input = e ∙ sym (append-nil (pre ++ take c.len c.p));
                frame = record {
                  start0 = s0;
                  start1 = s1;
                  down = dir;
                  size = omega (
                    arith,
                    room dir,
                    ltb_false→le c.len (ud_dlen c.p % 2 ^ 12 + 14 + 1 + 2) full,
                  );
                  fits = h.bounded;
                  sum = (==_iff (crc_calculate c.p (c.len - 2)) (ud_crc c.p c.len)).0 right;
                };
                packet = refl;
              })
            ])
      ])
]

-- The stored byte, in a cache with room.
roomy-Good :
    (hs : List ℕ) (c : UdPacketCache) (b : ℕ)
    → InFrame c
    → c.len < ud_size
    → EndsWith hs (take c.len c.p)
    → Good (hs ++ b ∷ []) (decode_byte c b)
roomy-Good hs c b f l w = elim (Bool-cases (ltb c.len 14)) [
  | inr body ↦
      let deep = ltb_false→le c.len 14 body in
      let fresh = ud_dlen-set c.p c.len b (omega (arith, deep)) in
      rw (decode_byte_body c b f.cache deep l) (
        decode_body-Good (hs ++ b ∷ []) (store c b) (stored_cache deep) (omega arith)
          (get_or-set_ne c.p c.len 0 b 0 (omega arith) ∙ f.start0 (omega arith))
          (get_or-set_ne c.p c.len 1 b 0 (omega arith) ∙ f.start1 (omega arith))
          (λ d. rw fresh (room deep (rw fresh at d))) (store-EndsWith hs c b f.cache l w))
  | inl head ↦
      let early = ltb→lt c.len 14 head in
      elim (Bool-cases (ltb c.len 2)) [
        | inr past ↦
            rw (decode_byte_head c b f.cache early (inl (ltb_false→le c.len 2 past))) (
              head_frame early (inl (ltb_false→le c.len 2 past)),
              store-EndsWith hs c b f.cache l w,
            )
        | inl first ↦ elim (Bool-cases (b == 0x7E)) [
          | inl right ↦
              rw (decode_byte_head c b f.cache early (inr ((==_iff b 0x7E).0 right))) (
                head_frame early (inr ((==_iff b 0x7E).0 right)),
                store-EndsWith hs c b f.cache l w,
              )
          | inr wrong ↦
              rw (decode_byte_bad c b f.cache (ltb→lt c.len 2 first) (==_ne b 0x7E wrong)) (
                error-Good (hs ++ b ∷ []) (record (store c b) { state = state_at (c.len + 1) })
                  (store-IsCache c b f.cache l))
        ]
      ]
]
  where
    stored_cache : 14 ≤ c.len → IsCache (store c b)
    stored_cache deep = ground (arith, store-IsCache c b f.cache l)

    room : 14 ≤ c.len → ud_dlen c.p / 2 ^ 15 % 2 ≡ 1 → c.len + 1 ≤ ud_dlen c.p % 2 ^ 12 + 17
    room deep d = elim (Bool-cases (ltb c.len 15)) [
      | inl at ↦ omega (arith, ltb→lt c.len 15 at)
      | inr past ↦ omega (arith, f.unfinished (ltb_false→le c.len 15 past) d)
    ]

    start :
        (i : ℕ)
        → i < 2
        → (2 ≤ c.len) ⊎ (b ≡ 0x7E)
        → (i < c.len → get_or c.p i 0 ≡ 0x7E)
        → i < c.len + 1
        → get_or (set c.p c.len b) i 0 ≡ 0x7E
    start i two s old lt = elim (Bool-cases (i == c.len)) [
      | inl new ↦
          let at : i ≡ c.len = (==_iff i c.len).0 new in
          let byte : b ≡ 0x7E = ground arith in
          rw at (get_or-set_self c.p c.len b 0 (omega (arith, f.cache.whole)) ∙ byte)
      | inr other ↦
          let ne = ==_ne i c.len other in
          get_or-set_ne c.p c.len i b 0 (λ e. ne (sym e)) ∙ old (omega arith)
    ]

    head_frame :
        c.len < 14
        → (2 ≤ c.len) ⊎ (b ≡ 0x7E)
        → InFrame (record (store c b) { state = state_at (c.len + 1) })
    head_frame early s = record {
      cache = store-IsCache c b f.cache l;
      start0 = λ lt. start 0 (omega arith) s (λ k. f.start0 (omega arith)) (omega arith);
      start1 = λ lt. start 1 (omega arith) s (λ k. f.start1 (omega arith)) (omega arith);
      unfinished = λ lt. absurd (omega arith);
    }

pub decode_byte-Good :
    (hs : List ℕ) (c : UdPacketCache) (b : ℕ)
    → InFrame c
    → EndsWith hs (take c.len c.p)
    → Good (hs ++ b ∷ []) (decode_byte c b)
decode_byte-Good hs c b f w = elim (Bool-cases (ltb c.len ud_size)) [
  | inl room ↦ roomy-Good hs c b f (ltb→lt c.len ud_size room) w
  | inr full ↦
      let at : c.len ≡ ud_size = omega (arith, ltb_false→le c.len ud_size full, f.cache.bounded) in
      let fresh = error-Good hs c f.cache in
      rw (decode_byte_full c b f.cache at)
        (roomy-Good hs (decode_error c) b fresh.0 (omega arith) fresh.1)
]

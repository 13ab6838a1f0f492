-- ===== src/Center/Times.antt =====
-- The times in a message's head, app/up/packet/header.cpp, and the setting of the clock, `set_time` of
-- app/up/center/center.cpp.
use yd.Prelude.{
  ℕ, ◌+◌, ◌*◌, ◌/◌, ◌%◌, ◌^◌, ◌≤◌, ◌<◌, bit_or, List, [], ◌∷◌, ◌++◌, length, true, false, not, ◌||◌,
  ◌≡◌, ◌⊎◌, inl, inr, refl, ap, ◌∙◌, arith, append_assoc, if_either, split_and, not-true,
  true-ne-false, ◌&&◌,
}
use yd.Prelude.Bits.{bit_or_low}
use yd.Prelude.Int.{ℤ, pos, negsuc, ltb_ℤ, ◌-ℤ◌}
use yd.Codec.Bcd.{le_bytes, bytehex2bcd, bcd2hex}
use yd.Codec.Bcd.Trip.{bytehex2bcd-bcd2hex}
use yd.Codec.Order.{little2big, inverseto, inverseto_loop}
use yd.Center.Header.{
  Calendar, Station, Out, emit, text, text-emit, length-emit, to_array_front3, Header, time_set,
  time_byte, push_byte, get_time_bcd, new_header, get_observetime_time,
}
use yd.Center.Commands.{Reply, time_of, set_time, front3}

push_byte_lem : (r b : ℕ) → r < 2 ^ 48 → b < 256 → push_byte r b ≡ r * 256 + b
unfolding push_byte
push_byte_lem r b h k =
    let e : r * 2 ^ 8 % 2 ^ 64 ≡ r * 2 ^ 8 = omega arith in
    rw e (bit_or_low 56 8 r b (omega arith) (omega arith))

time_byte-lt : (n : ℕ) → time_byte n < 256
unfolding time_byte
time_byte-lt n = omega arith

-- The six bytes of a time, as they are sent.
six_bytes :
    (a b c d e f : ℕ)
    → a < 256
    → b < 256
    → c < 256
    → d < 256
    → e < 256
    → f < 256
    → little2big
        (le_bytes 8 (push_byte (push_byte (push_byte (push_byte (push_byte a b) c) d) e) f))
        6
      ≡ a ∷ b ∷ c ∷ d ∷ e ∷ f ∷ []
unfolding little2big
six_bytes a b c d e f ha hb hc hd he hf =
    let v1 = push_byte a b in
    let v2 = push_byte v1 c in
    let v3 = push_byte v2 d in
    let v4 = push_byte v3 e in
    let v5 = push_byte v4 f in
    let h1 : v1 ≡ a * 256 + b = push_byte_lem a b (omega arith) hb in
    let h2 : v2 ≡ v1 * 256 + c = push_byte_lem v1 c (omega arith) hc in
    let h3 : v3 ≡ v2 * 256 + d = push_byte_lem v2 d (omega arith) hd in
    let h4 : v4 ≡ v3 * 256 + e = push_byte_lem v3 e (omega arith) he in
    let h5 : v5 ≡ v4 * 256 + f = push_byte_lem v4 f (omega arith) hf in
    let d5 : v5 / 256 ≡ v4 = omega arith in
    let d4 : v4 / 256 ≡ v3 = omega arith in
    let d3 : v3 / 256 ≡ v2 = omega arith in
    let d2 : v2 / 256 ≡ v1 = omega arith in
    let d1 : v1 / 256 ≡ a = omega arith in
    let m5 : v5 % 256 ≡ f = omega arith in
    let m4 : v4 % 256 ≡ e = omega arith in
    let m3 : v3 % 256 ≡ d = omega arith in
    let m2 : v2 % 256 ≡ c = omega arith in
    let m1 : v1 % 256 ≡ b = omega arith in
    let m0 : a % 256 ≡ a = omega arith in rw (d5, d4, d3, d2, d1, m5, m4, m3, m2, m1, m0)

-- The fields of a time of which the header keeps everything.
pub record IsDate (t : Calendar) : Type 0 where
  pub year : (t.year < 2100) × (2000 ≤ t.year)
  pub month : t.month < 100
  pub day : t.day < 100
  pub hour : t.hour < 100
  pub minute : t.minute < 100
  pub second : t.second < 100

abbrev pub time_bytes : Calendar → List ℕ
time_bytes t = little2big (le_bytes 8 (get_time_bcd t)) 6

time_bytes_lem :
    (t : Calendar)
    → time_bytes t
      ≡ time_byte (t.year % 100)
        ∷ time_byte t.month
        ∷ time_byte t.day
        ∷ time_byte t.hour
        ∷ time_byte t.minute
        ∷ time_byte t.second
        ∷ []
unfolding get_time_bcd
time_bytes_lem t =
    let y = time_byte (t.year % 100) in
    let first : bit_or 0 y ≡ y =
      omega (arith, bit_or_low 0 8 0 y (omega arith) (time_byte-lt (t.year % 100))) in
    rw first (
      six_bytes y (time_byte t.month) (time_byte t.day) (time_byte t.hour) (time_byte t.minute)
        (time_byte t.second) (time_byte-lt (t.year % 100)) (time_byte-lt t.month)
        (time_byte-lt t.day) (time_byte-lt t.hour) (time_byte-lt t.minute) (time_byte-lt t.second))

-- One field, written and read.
field_back : (n : ℕ) (rest : List ℕ) → n < 100 → bcd2hex (time_byte n ∷ rest) 1 ≡ n
unfolding time_byte bcd2hex
field_back n rest h =
    let (e, back) = bytehex2bcd-bcd2hex n h in
    let small : n % 2 ^ 8 ≡ n = omega arith in
    let byte : bytehex2bcd n % 2 ^ 8 ≡ bytehex2bcd n = omega arith in rw (small, byte) back

same_calendar :
    (t : Calendar) {y m d h n s : ℕ}
    → y ≡ t.year
    → m ≡ t.month
    → d ≡ t.day
    → h ≡ t.hour
    → n ≡ t.minute
    → s ≡ t.second
    → ◌≡◌ {A = Calendar}
        (record { year = y; month = m; day = d; hour = h; minute = n; second = s })
        t
same_calendar t ey em ed eh en es =
    λ i. record { year = ey i; month = em i; day = ed i; hour = eh i; minute = en i; second = es i }

-- The six bytes of a date of this century behind two others, read as a command's time.
time_of-time_bytes :
    (t : Calendar) (a b : ℕ) (rest : List ℕ) → IsDate t → time_of (a ∷ b ∷ time_bytes t ++ rest) ≡ t
unfolding time_of
time_of-time_bytes t a b rest d =
    let (before, from) = d.year in
    let y = field_back (t.year % 100) in
    let year : t.year % 100 + 2000 ≡ t.year = omega arith in
    rw (time_bytes_lem t) (
      same_calendar t (ap (λ n. n + 2000) (y _ (omega arith)) ∙ year) (field_back t.month _ d.month)
        (field_back t.day _ d.day) (field_back t.hour _ d.hour) (field_back t.minute _ d.minute)
        (field_back t.second rest d.second))

-- The fifteen bytes of a head's first three parts.
abbrev pub head_bytes : (ℕ → Calendar) → Header → List ℕ
head_bytes localtime h =
    little2big (le_bytes 2 h.liushui) 2
    ++ time_bytes (localtime h.sendtime)
    ++ 0xF1 ∷ 0xF1 ∷ inverseto (le_bytes 8 h.local) 5

-- The head stands behind what was written before, where the buffer has room for it.
pub text-to_array_front3 :
    (localtime : ℕ → Calendar) (h : Header) (o : Out)
    → o.size + 15 ≤ length o.buf
    → text (to_array_front3 localtime h o) ≡ text o ++ head_bytes localtime h
unfolding to_array_front3 little2big inverseto inverseto_loop emit
text-to_array_front3 localtime h o room =
    let a = little2big (le_bytes 2 h.liushui) 2 in
    let b = time_bytes (localtime h.sendtime) in
    let c : List ℕ = 0xF1 ∷ 0xF1 ∷ [] in
    let d = inverseto (le_bytes 8 h.local) 5 in
    let o1 = emit o a 2 in
    let o2 = emit o1 b 6 in
    let o3 = emit o2 c 2 in
    let l1 = length-emit o a 2 in
    let l2 = length-emit o1 b 6 in
    let l3 = length-emit o2 c 2 in
    let t4 : text (emit o3 d 5) ≡ text o3 ++ d = text-emit o3 d (omega arith) in
    let t3 : text o3 ≡ text o2 ++ c = text-emit o2 c (omega arith) in
    let t2 : text o2 ≡ text o1 ++ b = text-emit o1 b (omega arith) in
    let t1 : text o1 ≡ text o ++ a = text-emit o a (omega arith) in
    t4
    ∙ ap (λ x. x ++ d) (t3 ∙ ap (λ x. x ++ c) (t2 ∙ ap (λ x. x ++ b) t1))
    ∙ append_assoc ((text o ++ a) ++ b) c d
    ∙ append_assoc (text o ++ a) b (c ++ d)
    ∙ append_assoc (text o) a (b ++ c ++ d)

-- The time that a message carries is the time that a command reads: where an answer's head is written
-- to an empty buffer that has room for it, on a date of this century, reading its text as a command
-- gives the time of sending.
pub time_of-to_array_front3 :
    (localtime : ℕ → Calendar) (h : Header) (buf : List ℕ)
    → 15 ≤ length buf
    → IsDate (localtime h.sendtime)
    → time_of (text (to_array_front3 localtime h (record { buf = buf; size = 0 })))
      ≡ localtime h.sendtime
unfolding little2big
time_of-to_array_front3 localtime h buf room date =
    ap time_of (text-to_array_front3 localtime h (record { buf = buf; size = 0 }) room)
    ∙ time_of-time_bytes (localtime h.sendtime) _ _ (0xF1 ∷ 0xF1 ∷ inverseto (le_bytes 8 h.local) 5)
        date

-- The head of an answer changes neither the clock's state nor what was done.
front3-station :
    (localtime : ℕ → Calendar) (s : Station) (o : Out)
    → ((front3 localtime s o).station.effects ≡ s.effects)
      × ((front3 localtime s o).station.second_time ≡ s.second_time)
unfolding new_header get_observetime_time
front3-station localtime s o = (refl, refl)

-- A command that set the clock to time `t`, and one that was refused.
abbrev pub IsObeyed : Calendar → Station → Reply → Type 0
IsObeyed t s r = (r.station.effects ≡ time_set t ∷ s.effects) × (r.station.second_time ≡ false)

abbrev pub IsRefused : Station → Reply → Type 0
IsRefused s r =
    (s.second_time ≡ false) × (r.result ≡ negsuc 0) × (r.station ≡ record s { second_time = true })

set_time-cases :
    (localtime : ℕ → Calendar) (mktime : Calendar → ℤ) (s : Station) (d : List ℕ) (o : Out)
    → IsObeyed (time_of d) s (set_time localtime mktime s d o)
      ⊎ IsRefused s (set_time localtime mktime s d o)
unfolding set_time
set_time-cases localtime mktime s d o =
    let t = mktime (time_of d) in
    let far = ltb_ℤ (pos (s.now + 300)) t || ltb_ℤ t (pos s.now -ℤ pos 300) in
    let s1 : Station = record s {
      second_time = false;
      effects = time_set (time_of d) ∷ s.effects;
    } in
    if_either (λ (r : Reply). IsObeyed (time_of d) s r ⊎ IsRefused s r) (not s.second_time && far)
      (λ refused.
        let (first, _) = split_and (not s.second_time) far refused in
        inr (not-true s.second_time first, refl, refl))
      (λ accepted. inl (front3-station localtime s1 o))

-- The clock is set at the latest by the second of two commands in a row: either the first sets it, or
-- it is refused with -1 and changes nothing but the mark, and then the second sets it, whatever the
-- time that it carries.
pub set_time_twice :
    (localtime : ℕ → Calendar) (mktime : Calendar → ℤ) (s : Station) (d d2 : List ℕ) (o o2 : Out)
    → IsObeyed (time_of d) s (set_time localtime mktime s d o)
      ⊎ IsRefused s (set_time localtime mktime s d o)
        × IsObeyed
            (time_of d2)
            s
            (set_time localtime mktime (set_time localtime mktime s d o).station d2 o2)
set_time_twice localtime mktime s d d2 o o2 = elim (set_time-cases localtime mktime s d o) [
  | inl set ↦ inl set
  | inr (first, result, station) ↦ inr (
    (first, result, station),
    rw station (elim (set_time-cases localtime mktime (record s { second_time = true }) d2 o2) [
      | inl set ↦ set
      | inr again ↦ absurd (true-ne-false again.0)
    ]),
  )
]

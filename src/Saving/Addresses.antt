-- ===== src/Saving/Addresses.antt =====
-- The addresses of the center's stations, saved as text, `param_save` of
-- app/dataprocess/data_save.cpp.
use yd.Prelude.{
  bit_or, ℕ, zero, suc, ◌+◌, ◌*◌, ◌/◌, ◌%◌, ◌^◌, ◌≤◌, ◌<◌, List, [], ◌∷◌, ◌++◌, set, Bool, true,
  false, not, ltb, ◌==◌, ◌||◌, get_or, length, replicate, IsBytes, if◌then◌else◌, if_either,
  same_either, Bool-cases, ◌≡◌, inl, inr, refl, sym, subst, ap, ◌∙◌, arith, length-set,
  get_or-set_ne, get_or-set_self, true-ne-false,
}
use yd.Codec.Hex.{ipstring2hex, hex2ipstring, Endpoint}
use yd.Codec.Number.{scan_address, print_address}
use yd.Codec.Number.Reading.{scan_address-print_address}
use yd.Store.{DataClass, at}
use yd.Store.Appdata.{same_text}
use yd.Saving.{Rtu, save_remotes}
use yd.Saving.Fields.{same_text-eq, not-false}
use yd.Codec.Hex.Trip.{nibble_join}
use yd.Prelude.Bits.{bit_or_low}

-- The text of the address in a register.
abbrev pub address_text : DataClass → ℕ → List ℕ
address_text c i = print_address (hex2ipstring (at c (0x04 + i)).hex)

-- One round of the saving of the addresses, where the register has one.
saved_one : DataClass → ℕ → Rtu → Rtu
saved_one c i r =
    let text = address_text c i in
    let changed = ltb (length r.remote) (i + 1) || not (same_text (get_or r.remote i []) text) in
    if changed then record r { dirty = true; remote = set r.remote i text } else r

save_remotes_round :
    (k i : ℕ) (c : DataClass) (r : Rtu)
    → (get_or (at c (0x04 + i)).hex 0 0 == 0xFF) ≡ false
    → save_remotes (suc k) i c r ≡ save_remotes k (i + 1) c (saved_one c i r)
unfolding save_remotes saved_one
save_remotes_round k i c r h =
    ap (λ b. if b then r else save_remotes k (i + 1) c (saved_one c i r)) h

saved_one-length :
    (c : DataClass) (i : ℕ) (r : Rtu) → length (saved_one c i r).remote ≡ length r.remote
unfolding saved_one
saved_one-length c i r =
    let text = address_text c i in
    same_either (λ (x : Rtu). length x.remote)
      (ltb (length r.remote) (i + 1) || not (same_text (get_or r.remote i []) text))
      (length-set r.remote i text) refl

saved_one-other :
    (c : DataClass) (i j : ℕ) (r : Rtu)
    → j < i
    → get_or (saved_one c i r).remote j [] ≡ get_or r.remote j []
unfolding saved_one
saved_one-other c i j r h =
    let text = address_text c i in
    same_either (λ (x : Rtu). get_or x.remote j [])
      (ltb (length r.remote) (i + 1) || not (same_text (get_or r.remote i []) text))
      (get_or-set_ne r.remote i j text [] (omega arith)) refl

or_false : (a b : Bool) → (a || b) ≡ false → b ≡ false
or_false true b h = absurd (true-ne-false h)
or_false false b h = h

saved_one_self :
    (c : DataClass) (i : ℕ) (r : Rtu)
    → i < length r.remote
    → get_or (saved_one c i r).remote i [] ≡ address_text c i
unfolding saved_one
saved_one_self c i r h =
    let text = address_text c i in
    let small = ltb (length r.remote) (i + 1) in
    let differs = not (same_text (get_or r.remote i []) text) in
    if_either (λ (x : Rtu). get_or x.remote i [] ≡ text) (small || differs)
      (λ new. get_or-set_self r.remote i text [] h)
      (λ old. same_text-eq (get_or r.remote i []) text (not-false (or_false small differs old)))

-- The later rounds leave an address alone.
save_remotes-earlier :
    (k i : ℕ) (c : DataClass) (r : Rtu) (j : ℕ)
    → j < i
    → get_or (save_remotes k i c r).remote j [] ≡ get_or r.remote j []
unfolding save_remotes saved_one
save_remotes-earlier zero i c r j h = refl
save_remotes-earlier (suc k) i c r j h =
    same_either (λ (x : Rtu). get_or x.remote j []) (get_or (at c (0x04 + i)).hex 0 0 == 0xFF) refl
      (save_remotes-earlier k (i + 1) c (saved_one c i r) j (omega arith)
        ∙ saved_one-other c i j r h)

pub address_saved :
    (k i : ℕ) (c : DataClass) (r : Rtu) (j : ℕ)
    → i ≤ j
    → j < i + k
    → j < length r.remote
    → ((m : ℕ) → m ≤ j → (get_or (at c (0x04 + m)).hex 0 0 == 0xFF) ≡ false)
    → get_or (save_remotes k i c r).remote j [] ≡ address_text c j
address_saved zero i c r j h k s used = absurd (omega arith)
address_saved (suc k) i c r j h below s used =
    let r1 = saved_one c i r in
    let round = ap (λ (x : Rtu). get_or x.remote j []) (save_remotes_round k i c r (used i h)) in
    let s1 : j < length r1.remote = omega (arith, saved_one-length c i r) in
    round ∙ elim (Bool-cases (i == j)) [
      | inl e ↦
          let same : i ≡ j = ground (arith, e) in
          save_remotes-earlier k (i + 1) c r1 j (omega arith)
          ∙ subst (λ m. get_or r1.remote m [] ≡ address_text c m) same
              (saved_one_self c i r (omega arith))
      | inr ne ↦ address_saved k (i + 1) c r1 j (ground (arith, ne)) (omega arith) s1 used
    ]

pub save_remotes-length :
    (k i : ℕ) (c : DataClass) (r : Rtu) → length (save_remotes k i c r).remote ≡ length r.remote
unfolding save_remotes saved_one
save_remotes-length zero i c r = refl
save_remotes-length (suc k) i c r =
    same_either (λ (x : Rtu). length x.remote) (get_or (at c (0x04 + i)).hex 0 0 == 0xFF) refl
      (save_remotes-length k (i + 1) c (saved_one c i r) ∙ saved_one-length c i r)

-- A register of an address: the channel type 2 and nine bytes.
pub record IsAddress (hex : List ℕ) : Type 0 where
  pub bytes : List ℕ
  pub nine : length bytes ≡ 9
  pub small : IsBytes bytes
  pub whole : hex ≡ 2 ∷ bytes

byte_join : (a b : ℕ) → a < 256 → b < 256 → bit_or (a * 2 ^ 4) (b / 2 ^ 4) ≡ a * 16 + b / 16
byte_join a b h k = bit_or_low 8 4 a (b / 2 ^ 4) h (omega arith)

nibble_byte : (a b : ℕ) → b < 256 → bit_or (a % 2 ^ 4 * 2 ^ 8) b ≡ a % 16 * 256 + b
nibble_byte a b h = bit_or_low 4 8 (a % 2 ^ 4) b (omega arith) h

-- The five numbers of nine bytes.
abbrev numbers_of : ℕ → ℕ → ℕ → ℕ → ℕ → ℕ → ℕ → ℕ → ℕ → Endpoint
numbers_of a b c d e f g h i = record {
  ip1 = a * 16 + b / 16;
  ip2 = b % 16 * 256 + c;
  ip3 = d * 16 + e / 16;
  ip4 = e % 16 * 256 + f;
  port = (g * 256 + h) * 256 + i;
}

module _ (a b c d e f g h i : ℕ) (small : IsBytes (a ∷ b ∷ c ∷ d ∷ e ∷ f ∷ g ∷ h ∷ i ∷ [])) where
  nine_numbers :
      hex2ipstring (2 ∷ a ∷ b ∷ c ∷ d ∷ e ∷ f ∷ g ∷ h ∷ i ∷ []) ≡ numbers_of a b c d e f g h i
  unfolding hex2ipstring
  nine_numbers =
      let two = bit_or_low 8 8 g h (omega arith) (omega arith) in
      let three = bit_or_low 16 8 (g * 2 ^ 8 + h) i (omega arith) (omega arith) in
      rw
        (
          byte_join a b (omega arith) (omega arith),
          nibble_byte b c (omega arith),
          byte_join d e (omega arith) (omega arith),
          nibble_byte e f (omega arith),
          two,
          three,
        )
        refl

  nine_printed :
      scan_address (print_address (numbers_of a b c d e f g h i)) ≡ numbers_of a b c d e f g h i
  nine_printed =
      scan_address-print_address (numbers_of a b c d e f g h i) (omega arith) (omega arith)
        (omega arith) (omega arith) (omega arith)

  nine_bytes :
      ipstring2hex (numbers_of a b c d e f g h i)
      ≡ (2 ∷ a ∷ b ∷ c ∷ d ∷ e ∷ f ∷ g ∷ h ∷ i ∷ []) ++ replicate 10 0
  unfolding ipstring2hex
  nine_bytes =
      let n = numbers_of a b c d e f g h i in
      let join1 = nibble_join n.ip1 (n.ip2 / 2 ^ 8 % 2 ^ 4) (omega arith) in
      let join2 = nibble_join n.ip3 (n.ip4 / 2 ^ 8 % 2 ^ 4) (omega arith) in
      rw (join1, join2) (ground arith)

  -- The text of an address gives its register back.
  nine_back :
      ipstring2hex
        (scan_address (print_address (hex2ipstring (2 ∷ a ∷ b ∷ c ∷ d ∷ e ∷ f ∷ g ∷ h ∷ i ∷ []))))
      ≡ (2 ∷ a ∷ b ∷ c ∷ d ∷ e ∷ f ∷ g ∷ h ∷ i ∷ []) ++ replicate 10 0
  nine_back =
      ap (λ n. ipstring2hex (scan_address (print_address n))) nine_numbers
      ∙ ap ipstring2hex nine_printed
      ∙ nine_bytes

bytes_back :
    (bs : List ℕ)
    → length bs ≡ 9
    → IsBytes bs
    → ipstring2hex (scan_address (print_address (hex2ipstring (2 ∷ bs))))
      ≡ (2 ∷ bs) ++ replicate 10 0
bytes_back (a ∷ b ∷ c ∷ d ∷ e ∷ f ∷ g ∷ h ∷ i ∷ []) n small = nine_back a b c d e f g h i small
bytes_back [] n small = absurd (omega arith)
bytes_back (a ∷ b ∷ c ∷ d ∷ e ∷ f ∷ g ∷ h ∷ i ∷ j ∷ more) n small = absurd (omega arith)
bytes_back (a ∷ []) n small = absurd (omega arith)
bytes_back (a ∷ b ∷ []) n small = absurd (omega arith)
bytes_back (a ∷ b ∷ c ∷ []) n small = absurd (omega arith)
bytes_back (a ∷ b ∷ c ∷ d ∷ []) n small = absurd (omega arith)
bytes_back (a ∷ b ∷ c ∷ d ∷ e ∷ []) n small = absurd (omega arith)
bytes_back (a ∷ b ∷ c ∷ d ∷ e ∷ f ∷ []) n small = absurd (omega arith)
bytes_back (a ∷ b ∷ c ∷ d ∷ e ∷ f ∷ g ∷ []) n small = absurd (omega arith)
bytes_back (a ∷ b ∷ c ∷ d ∷ e ∷ f ∷ g ∷ h ∷ []) n small = absurd (omega arith)

pub address_back :
    (hex : List ℕ)
    → IsAddress hex
    → ipstring2hex (scan_address (print_address (hex2ipstring hex))) ≡ hex ++ replicate 10 0
address_back hex k =
    subst (λ t. ipstring2hex (scan_address (print_address (hex2ipstring t))) ≡ t ++ replicate 10 0)
      (sym k.whole) (bytes_back k.bytes k.nine k.small)

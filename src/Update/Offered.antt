-- ===== src/Update/Offered.antt =====
-- The version that the server offers, `ftp_list_deb_version` of daemon/updata.cpp, in the list of its folder.
use yd.Prelude.{
  ℕ, zero, suc, ◌+◌, ◌-◌, ◌≤◌, ◌<◌, List, [], ◌∷◌, ◌++◌, Option, none, some, Bool, true, false, ltb,
  ◌==◌, not, if◌then◌else◌, length, take, drop, put, set, All, ◌≡◌, ◌≢◌, refl, sym, ap, get_or,
  get_or-set_ne, ◌∙◌, arith, take-put, take-set_ge, drop-append,
}
use yd.Prelude.Slices.{drop_add}
use yd.Prelude.Int.{ℤ, pos, negsuc}

-- `strncpy`, as the `n` bytes it writes.
unfoldable pub strncpy : ℕ → List ℕ → List ℕ
strncpy zero src = []
strncpy (suc n) [] = 0 ∷ strncpy n []
strncpy (suc n) (x ∷ src) =
    let zeros = strncpy n [] in let rest = strncpy n src in if x == 0 then 0 ∷ zeros else x ∷ rest

-- `strlen`, within a memory.
unfoldable pub strlen : List ℕ → ℕ
strlen [] = 0
strlen (x ∷ xs) = let rest = strlen xs in if x == 0 then 0 else suc rest

-- The search is an argument: where a match of the pattern begins and where it ends. `listed` and `text` come
-- from `ftp_list`, `app` is the length of the program's name; the second result is the caller's buffer.
unfoldable pub ftp_list_deb_version :
    (List ℕ → Option (ℕ × ℕ)) → ℕ → Bool → List ℕ → List ℕ → ℤ × List ℕ
ftp_list_deb_version regexec app listed text aa =
    if not listed
    then (negsuc 0, aa)
    else if not (ltb 1 (length text))
    then (negsuc 0, aa)
    else elim (regexec text) [
      | none ↦ (negsuc 0, aa)
      | some (so, eo) ↦
          let oss = eo - so - app - 1 - 4 in
          let copied = put aa 0 (strncpy oss (drop (so + 1 + app) text)) in
          let closed = set copied (eo - so) 0 in (pos (strlen closed), closed)
    ]

-- A text without the byte 0 is copied as it is.
strncpy-append :
    (text rest : List ℕ) → All (λ x. x ≢ 0) text → strncpy (length text) (text ++ rest) ≡ text
unfolding strncpy
strncpy-append [] rest h = refl
strncpy-append (x ∷ text) rest h =
    let other : (x == 0) ≡ false = ground (arith, h.0) in
    rw other (ap (λ xs. x ∷ xs) (strncpy-append text rest h.1))

-- A write in front of a cell.
get_or-put_lt :
    (vs xs : List ℕ) (i j : ℕ) → i + length vs ≤ j → get_or (put xs i vs) j 0 ≡ get_or xs j 0
unfolding put
get_or-put_lt [] xs i j h = refl
get_or-put_lt (v ∷ vs) xs i j h =
    get_or-put_lt vs (set xs i v) (i + 1) j (omega arith)
    ∙ get_or-set_ne xs i j v 0 (λ e. omega (arith, e))

-- The buffer that a found version leaves: the version, what stood behind it, and a zero.
filled-old :
    (version aa : List ℕ)
    → (end j : ℕ) → length version ≤ j
    → j < end
    → length version ≤ length aa
    → let r = set (put aa 0 version) end 0 in
      (take (length version) r ≡ version) × (get_or r j 0 ≡ get_or aa j 0)
filled-old version aa end j h k l =
    let e : 0 + length version ≡ length version = omega arith in
    let copy = take-put version aa 0 (omega arith) in
    (
      take-set_ge (length version) end (put aa 0 version) 0 (omega arith)
          ∙ ap (λ n. take n (put aa 0 version)) (sym e)
          ∙ copy,
      get_or-set_ne (put aa 0 version) end j 0 0 (λ d. omega (arith, d))
          ∙ get_or-put_lt version aa 0 j (omega arith),
    )

-- Where the search finds the program's name and one byte, a version without a zero and four bytes behind it,
-- in a list of two bytes or more, and the caller's buffer has place, the buffer gets the version, and each
-- byte behind it, up to the place of the zero, stays as it was.
pub ftp_list_deb_version-old :
    (regexec : List ℕ → Option (ℕ × ℕ))
    → (app : ℕ) → (front lead version rest aa : List ℕ) → (j : ℕ) → length lead ≡ app + 1
    → regexec (front ++ (lead ++ (version ++ rest)))
      ≡ some (length front, length front + (app + 1 + length version + 4))
    → All (λ x. x ≢ 0) version
    → 2 ≤ length (front ++ (lead ++ (version ++ rest)))
    → app + length version + 5 < length aa
    → length version ≤ j
    → j < app + length version + 5
    → let r = (ftp_list_deb_version regexec app true (front ++ (lead ++ (version ++ rest))) aa).1 in
      (take (length version) r ≡ version) × (get_or r j 0 ≡ get_or aa j 0)
unfolding ftp_list_deb_version
ftp_list_deb_version-old regexec app front lead version rest aa j l found text long room low high =
    let so = length front in
    let all = front ++ (lead ++ (version ++ rest)) in
    let some_text : ltb 1 (length all) ≡ true = ground arith in
    let oss : so + (app + 1 + length version + 4) - so - app - 1 - 4 ≡ length version =
      omega arith in
    let end : so + (app + 1 + length version + 4) - so ≡ app + length version + 5 = omega arith in
    let place : drop (so + 1 + app) all ≡ version ++ rest =
      let e : so + 1 + app ≡ so + length lead = omega (arith, l) in
      rw
        (
          e,
          drop_add so (length lead) all,
          drop-append front (lead ++ (version ++ rest)),
          drop-append lead (version ++ rest),
        )
        refl in
    rw (some_text, found, oss, end, place, strncpy-append version rest text)
      (filled-old version aa (app + length version + 5) j low high (omega arith))

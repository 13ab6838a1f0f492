-- ===== src/Bao/Retry.antt =====
-- The reports that failed and are sent again, BuBaoBase of app/dataprocess/Ibao.hpp, over the table that
-- `find` and `update` of data/DB.hpp read and write, the rows in their order.
use yd.Prelude.{
  ℕ, ◌+◌, ◌≤◌, ◌<◌, List, [], ◌∷◌, ◌++◌, Bool, true, false, ◌==◌, ◌&&◌, Option, none, some,
  if◌then◌else◌, if_either, Bool-cases, ==_iff, ◌≡◌, ◌≢◌, inl, inr, refl, sym, subst, ap, ◌∙◌,
  arith, true-ne-false, Option-cases,
}
use yd.Store.Appdata.{same_text}

-- A row of the table.
pub record TbBu : Type 0 where
  pub valid : ℕ
  pub name : List ℕ
  pub date : List ℕ
  pub tb : List ℕ
  pub tdate : List ℕ
  pub cmd : List ℕ
  pub ids : List ℕ

-- The query that both writers use.
unfoldable pub is_row_of : TbBu → TbBu → Bool
is_row_of m r = same_text r.name m.name && (same_text r.cmd m.cmd && same_text r.tdate m.tdate)

unfoldable pub update_rows : TbBu → List TbBu → List TbBu
update_rows m [] = []
update_rows m (r ∷ rs) = (if is_row_of m r then m else r) ∷ update_rows m rs

unfoldable pub has_row : TbBu → List TbBu → Bool
has_row m [] = false
has_row m (r ∷ rs) = let rest = has_row m rs in if is_row_of m r then true else rest

unfoldable pub update : TbBu → List TbBu → List TbBu
update m rs = if has_row m rs then update_rows m rs else rs ++ m ∷ []

unfoldable pub bu_add_one_record : TbBu → List TbBu → List TbBu
bu_add_one_record m rs = update (record m { valid = 1 }) rs

unfoldable pub bu_invalid_one_record : TbBu → List TbBu → List TbBu
bu_invalid_one_record m rs = update (record m { valid = 0 }) rs

-- `valid!=0 LIMIT 1`.
unfoldable pub find_valid : List TbBu → Option TbBu
find_valid [] = none
find_valid (r ∷ rs) = let rest = find_valid rs in if r.valid == 0 then rest else some r

-- One report of the class, `record_check` with `report_data` and `report_ok`: `done` says that the report is
-- confirmed or that the data it is about are gone; a report that fails leaves the row as it is.
unfoldable pub bu_turn : Bool → List TbBu → List TbBu
bu_turn done rs = elim (find_valid rs) [
  | none ↦ rs
  | some m ↦ if done then bu_invalid_one_record m rs else rs
]

unfoldable pub bu_turns : List Bool → List TbBu → List TbBu
bu_turns [] rs = rs
bu_turns (done ∷ turns) rs = bu_turns turns (bu_turn done rs)

-- The rows that wait, and the turns that settle one.
abbrev weight : TbBu → ℕ
weight r = if r.valid == 0 then 0 else 1

abbrev pub pending : List TbBu → ℕ
pending [] = 0
pending (r ∷ rs) = weight r + pending rs

abbrev pub settled : List Bool → ℕ
settled [] = 0
settled (done ∷ turns) = (if done then 1 else 0) + settled turns

abbrev or_else : TbBu → Option TbBu → TbBu
or_else d none = d
or_else d (some m) = m

abbrev is_none : Option TbBu → Bool
is_none none = true
is_none (some m) = false

some-inj : {a b : TbBu} → some a ≡ some b → a ≡ b
some-inj {a = a} p = ap (or_else a) p

none-ne-some : {a : TbBu} → none ≢ some a
none-ne-some p = true-ne-false (ap is_none p)

same_text_self : (t : List ℕ) → same_text t t ≡ true
same_text_self [] = refl
same_text_self (b ∷ bs) = ap (λ x. x && same_text bs bs) ((==_iff b b).1 refl) ∙ same_text_self bs

is_row_of_self : (m : TbBu) → is_row_of (record m { valid = 0 }) m ≡ true
unfolding is_row_of
is_row_of_self m = rw (same_text_self m.name, same_text_self m.cmd, same_text_self m.tdate) refl

weight_done : (m : TbBu) → m.valid ≡ 0 → weight m ≡ 0
weight_done m h = ground (arith, h)

update_rows-pending_le :
    (m : TbBu) (rs : List TbBu) → m.valid ≡ 0 → pending (update_rows m rs) ≤ pending rs
unfolding update_rows
update_rows-pending_le m [] h = omega arith
update_rows-pending_le m (r ∷ rs) h =
    let ih = update_rows-pending_le m rs h in
    let w = weight_done m h in
    if_either (λ (x : TbBu). weight x + pending (update_rows m rs) ≤ weight r + pending rs)
      (is_row_of m r) (λ row. omega arith) (λ other. omega arith)

-- A row that waits is found, and to put it down as done leaves fewer that wait.
update_rows-pending_lt :
    (k m : TbBu) (rs : List TbBu)
    → k.valid ≡ 0
    → is_row_of k m ≡ true
    → find_valid rs ≡ some m
    → (has_row k rs ≡ true) × (pending (update_rows k rs) < pending rs)
unfolding update_rows has_row find_valid
update_rows-pending_lt k m [] h row found = absurd (none-ne-some found)
update_rows-pending_lt k m (r ∷ rs) h row found =
    let w = weight_done k h in
    elim (Bool-cases (r.valid == 0)) [
      | inl done ↦
          let still = sym (ap (λ b. if b then find_valid rs else some r) done) ∙ found in
          let ih = update_rows-pending_lt k m rs h row still in
          (
            if_either (λ b. b ≡ true) (is_row_of k r) (λ mine. refl) (λ other. ih.0),
            let less : pending (update_rows k rs) < pending rs = ih.1 in
                if_either
                  (λ (x : TbBu). weight x + pending (update_rows k rs) < weight r + pending rs)
                  (is_row_of k r) (λ mine. omega arith) (λ other. omega arith),
          )
      | inr waits ↦
          let one : weight r ≡ 1 = ap (λ b. if b then 0 else 1) waits in
          let first : r ≡ m =
            some-inj (sym (ap (λ b. if b then find_valid rs else some r) waits) ∙ found) in
          let mine : is_row_of k r ≡ true = subst (λ x. is_row_of k x ≡ true) (sym first) row in
          let fewer = update_rows-pending_le k rs h in
          (
            ap (λ b. if b then true else has_row k rs) mine,
            subst
                (λ b.
                  weight (if b then k else r) + pending (update_rows k rs) < weight r + pending rs)
                (sym mine) (omega arith),
          )
    ]

bu_invalid_one_record-pending :
    (m : TbBu) (rs : List TbBu)
    → find_valid rs ≡ some m
    → pending (bu_invalid_one_record m rs) < pending rs
unfolding bu_invalid_one_record update
bu_invalid_one_record-pending m rs found =
    let k : TbBu = record m { valid = 0 } in
    let (there, less) = update_rows-pending_lt k m rs refl (is_row_of_self m) found in
    subst (λ b. pending (if b then update_rows k rs else rs ++ k ∷ []) < pending rs) (sym there)
      less

find_valid-none : (rs : List TbBu) → pending rs ≡ 0 → find_valid rs ≡ none
unfolding find_valid
find_valid-none [] h = refl
find_valid-none (r ∷ rs) h = elim (Bool-cases (r.valid == 0)) [
  | inl done ↦ ap (λ b. if b then find_valid rs else some r) done ∙ find_valid-none rs (omega arith)
  | inr waits ↦ let one : weight r ≡ 1 = ap (λ b. if b then 0 else 1) waits in absurd (omega arith)
]

none-pending : (rs : List TbBu) → find_valid rs ≡ none → pending rs ≡ 0
unfolding find_valid
none-pending [] h = refl
none-pending (r ∷ rs) h = elim (Bool-cases (r.valid == 0)) [
  | inl done ↦
      let none_wait =
        none-pending rs (sym (ap (λ b. if b then find_valid rs else some r) done) ∙ h) in
      let no : weight r ≡ 0 = ap (λ b. if b then 0 else 1) done in omega arith
  | inr waits ↦ absurd (none-ne-some (sym h ∙ ap (λ b. if b then find_valid rs else some r) waits))
]

-- A turn that settles a row leaves fewer that wait, and no turn leaves more.
bu_turn-pending :
    (done : Bool) (rs : List TbBu) (n : ℕ)
    → pending rs ≤ (if done then 1 else 0) + n
    → pending (bu_turn done rs) ≤ n
unfolding bu_turn
bu_turn-pending done rs n h =
    let turned : Option TbBu → List TbBu =
      λ o. elim o [ none ↦ rs | some m ↦ if done then bu_invalid_one_record m rs else rs ] in
    elim (Option-cases (find_valid rs)) [
      | inl nothing ↦
          let empty = none-pending rs nothing in
          subst (λ o. pending (turned o) ≤ n) (sym nothing) (omega arith)
      | inr (m, found) ↦
          let less = bu_invalid_one_record-pending m rs found in
          subst (λ o. pending (turned o) ≤ n) (sym found)
            (elim (Bool-cases done) [
              | inl settles ↦
                  let h1 : pending rs ≤ 1 + n =
                    subst (λ b. pending rs ≤ (if b then 1 else 0) + n) settles h in
                  subst (λ b. pending (if b then bu_invalid_one_record m rs else rs) ≤ n)
                    (sym settles) (omega arith)
              | inr fails ↦
                  let h0 : pending rs ≤ 0 + n =
                    subst (λ b. pending rs ≤ (if b then 1 else 0) + n) fails h in
                  subst (λ b. pending (if b then bu_invalid_one_record m rs else rs) ≤ n)
                    (sym fails) (omega arith)
            ])
    ]

-- Every report that failed is settled at last: behind turns of which at least as many settle a row, by a
-- confirmed report or because its data are gone, as there are rows that wait, the table has no row that
-- waits, whatever the turns between them that fail.
pub bu_turns_settle :
    (turns : List Bool) (rs : List TbBu)
    → pending rs ≤ settled turns
    → find_valid (bu_turns turns rs) ≡ none
unfolding bu_turns
bu_turns_settle [] rs h = find_valid-none rs (omega arith)
bu_turns_settle (done ∷ turns) rs h =
    bu_turns_settle turns (bu_turn done rs) (bu_turn-pending done rs (settled turns) h)

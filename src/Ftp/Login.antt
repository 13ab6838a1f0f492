-- ===== src/Ftp/Login.antt =====
-- Who gets in at an FTP server, `ftp_connect` of daemon/ftpclient.cpp.
use yd.Prelude.{
  ℕ, List, ◌∷◌, Option, none, some, Bool, true, false, ◌==◌, not, if_either, ◌⊎◌, inl, inr, ◌≡◌,
  refl, sym, ap, subst, arith, true-ne-false, ==_iff,
}
use yd.Prelude.Int.{ℤ}
use yd.Ftp.{
  Ctrl, cmd_user, cmd_pass, ftp_sendcmd, login_server, connect_server, ftp_connect, log_in,
  has_number, result_of, next_reply, later_replies,
}

-- The connection that a login leaves: the name was enough, or the server asked for the password and took it.
abbrev pub IsWelcome : Ctrl → List ℕ → List ℕ → Ctrl → Type 0
IsWelcome c user pwd d =
    ((next_reply c.replies ≡ some 230) × (d.sent ≡ cmd_user user ∷ c.sent))
    ⊎ ((next_reply c.replies ≡ some 331)
        × (next_reply (later_replies c.replies) ≡ some 230)
        × (d.sent ≡ cmd_pass pwd ∷ cmd_user user ∷ c.sent))

number_of : (r : Option ℕ) → (n : ℕ) → has_number (result_of r) n ≡ true → r ≡ some n
number_of none n e = absurd cc
number_of (some m) n e = ap (λ (k : ℕ). some k) (ground arith)

not-false : (b : Bool) → not b ≡ false → b ≡ true
not-false true e = refl
not-false false e = absurd (true-ne-false e)

login_server-IsWelcome :
    (c : Ctrl)
    → (user pwd : List ℕ) → has_number (login_server c user pwd).0 0 ≡ true
    → IsWelcome c user pwd (login_server c user pwd).1
unfolding login_server ftp_sendcmd
login_server-IsWelcome c user pwd e =
    if_either (λ (t : ℤ × Ctrl). has_number t.0 0 ≡ true → IsWelcome c user pwd t.1)
      (has_number (result_of (next_reply c.replies)) 230)
      (λ known done. inl (number_of (next_reply c.replies) 230 known, refl))
      (λ unknown.
        if_either (λ (t : ℤ × Ctrl). has_number t.0 0 ≡ true → IsWelcome c user pwd t.1)
          (has_number (result_of (next_reply c.replies)) 331)
          (λ asked.
            if_either (λ (t : ℤ × Ctrl). has_number t.0 0 ≡ true → IsWelcome c user pwd t.1)
              (not (has_number (result_of (next_reply (later_replies c.replies))) 230))
              (λ wrong done. absurd (true-ne-false (sym done)))
              (λ right done. inr (
                number_of (next_reply c.replies) 331 asked,
                number_of (next_reply (later_replies c.replies)) 230 (not-false _ right),
                refl,
              )))
          (λ refused done. absurd (true-ne-false (sym done))))
      e

abbrev IfSome : (Ctrl → Type 0) → Option Ctrl → Type 0
IfSome P none = Unit
IfSome P (some d) = P d

ftp_connect-IfSome :
    (c : Ctrl)
    → (greeting : ℕ) → (user pwd : List ℕ)
    → IfSome (λ d. (greeting ≡ 220) × IsWelcome c user pwd d) (ftp_connect c greeting user pwd)
unfolding ftp_connect connect_server
ftp_connect-IfSome c greeting user pwd =
    let r = login_server c user pwd in
    let IsIn : Option Ctrl → Type 0 = IfSome (λ d. (greeting ≡ 220) × IsWelcome c user pwd d) in
    if_either (λ (o : Option Ctrl). IsIn (log_in o user pwd)) (not (greeting == 220)) (λ other. tt)
      (λ ready.
        if_either IsIn (not (has_number r.0 0)) (λ out. tt)
          (λ done. (
            (==_iff greeting 220).0 (not-false _ ready),
            login_server-IsWelcome c user pwd (not-false _ done),
          )))

-- A connection that `ftp_connect` gives greeted with 220 and is logged in: by the name alone, or by the
-- password, which is sent only where the server asked for it.
pub ftp_connect-IsWelcome :
    (c d : Ctrl)
    → (greeting : ℕ) → (user pwd : List ℕ) → ftp_connect c greeting user pwd ≡ some d
    → (greeting ≡ 220) × IsWelcome c user pwd d
ftp_connect-IsWelcome c d greeting user pwd e =
    subst (IfSome (λ x. (greeting ≡ 220) × IsWelcome c user pwd x)) e
      (ftp_connect-IfSome c greeting user pwd)

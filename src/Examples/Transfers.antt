-- ===== src/Examples/Transfers.antt =====
-- Runs of the FTP client on concrete inputs.
use yd.Prelude.{ℕ, List, [], ◌∷◌, some, true, false, ◌≡◌, refl, arith, replicate, length-replicate}
use yd.Ftp.{
  Ctrl, Round, ftp_connect, ftp_list, ftp_retrfile, login_server, connect_server, ftp_sendcmd,
  ftp_transfer, ftp_type, copy_loop,
}
use yd.Ftp.Listing.{IsListed, arrived, ftp_list-IsListed}
use yd.Ftp.Files.{IsCopied, incoming, ftp_retrfile-IsCopied}
use yd.Ftp.Login.{IsWelcome, ftp_connect-IsWelcome}

abbrev greeting_code : ℕ
greeting_code = 220

-- The server takes the name, asks for the password and takes that.
abbrev greeted : Ctrl
greeted = record { sent = []; replies = some 331 ∷ some 230 ∷ []; is_open = true }

abbrev logged_in : Ctrl
logged_in = (login_server greeted (1 ∷ []) (2 ∷ [])).1

ftp_connect-IsWelcome_example :
    (greeting_code ≡ 220) × IsWelcome greeted (1 ∷ []) (2 ∷ []) logged_in
unfolding ftp_connect connect_server login_server ftp_sendcmd
ftp_connect-IsWelcome_example =
    ftp_connect-IsWelcome greeted logged_in greeting_code (1 ∷ []) (2 ∷ []) refl

-- 227 for the passive mode, 150 for the list.
abbrev listing : Ctrl
listing = record { sent = []; replies = some 227 ∷ some 150 ∷ []; is_open = true }

abbrev two_chunks : List (List ℕ)
two_chunks = (97 ∷ 98 ∷ []) ∷ (99 ∷ []) ∷ []

ftp_list-IsListed_example :
    IsListed (arrived two_chunks) (ftp_list (λ n. replicate n 0) listing [] (some two_chunks)).1
unfolding ftp_list ftp_sendcmd
ftp_list-IsListed_example =
    ftp_list-IsListed (λ n. replicate n 0) (λ n. length-replicate n 0) listing [] two_chunks
      ((λ e. cc), ((λ e. cc), tt)) (omega arith, (omega arith, tt)) refl

-- 200 for the binary mode, 227, 150, and 226 behind the data.
abbrev fetching : Ctrl
fetching = record {
  sent = [];
  replies = some 200 ∷ some 227 ∷ some 150 ∷ some 226 ∷ [];
  is_open = true;
}

abbrev two_rounds : List Round
two_rounds =
    record { bytes = 97 ∷ 98 ∷ []; taken = 2; stop = false }
    ∷ record { bytes = 99 ∷ []; taken = 1; stop = false }
    ∷ []

ftp_retrfile-IsCopied_example :
    IsCopied [] 0 (incoming two_rounds) (ftp_retrfile fetching [] true (some two_rounds) 0).1
unfolding ftp_retrfile ftp_transfer ftp_sendcmd ftp_type copy_loop
ftp_retrfile-IsCopied_example =
    ftp_retrfile-IsCopied fetching [] true two_rounds 0
      ((λ e. cc), ((λ e. cc), ((λ e. cc), ((λ e. cc), tt)))) refl

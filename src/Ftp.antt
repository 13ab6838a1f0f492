-- ===== src/Ftp.antt =====
-- The FTP client of the background program, daemon/ftpclient.cpp. The numbers of the server's replies and
-- what the data connections give are arguments.
pub mod Listing
pub mod Files
pub mod Login
use yd.Prelude.{
  ℕ, ◌+◌, ◌*◌, List, [], ◌∷◌, ◌++◌, Option, none, some, Bool, true, false, ltb, leb, ◌==◌, not,
  ◌||◌, if◌then◌else◌, length, take, put,
}
use yd.Prelude.Int.{ℤ, pos, negsuc}

pub data Command : Type 0 where
  cmd_user : List ℕ → Command
  cmd_pass : List ℕ → Command
  cmd_pasv : Command
  cmd_type : ℕ → Command
  cmd_cwd : List ℕ → Command
  cmd_cdup : Command
  cmd_mkd : List ℕ → Command
  cmd_list : List ℕ → Command
  cmd_retr : List ℕ → Command
  cmd_stor : List ℕ → Command
  cmd_rnfr : List ℕ → Command
  cmd_rnto : List ℕ → Command
  cmd_dele : List ℕ → Command
  cmd_rmd : List ℕ → Command
  cmd_quit : Command

-- The control connection: the commands sent, the last one first, and what the receives to come yield: the
-- number that `sscanf` reads (0 for a text without one), or nothing where `send` or `recv` fails.
pub record Ctrl : Type 0 where
  pub sent : List Command
  pub replies : List (Option ℕ)
  pub is_open : Bool

abbrev pub next_reply : List (Option ℕ) → Option ℕ
next_reply [] = none
next_reply (r ∷ rs) = r

abbrev pub later_replies : List (Option ℕ) → List (Option ℕ)
later_replies [] = []
later_replies (r ∷ rs) = rs

abbrev pub result_of : Option ℕ → ℤ
result_of none = negsuc 0
result_of (some n) = pos n

unfoldable pub ftp_sendcmd : Ctrl → Command → ℤ × Ctrl
ftp_sendcmd c cmd = (
  result_of (next_reply c.replies),
  record c { sent = cmd ∷ c.sent; replies = later_replies c.replies },
)

-- Is a result the number `n`?
abbrev pub has_number : ℤ → ℕ → Bool
has_number (pos m) n = m == n
has_number (negsuc m) n = false

unfoldable pub login_server : Ctrl → List ℕ → List ℕ → ℤ × Ctrl
login_server c user pwd =
    let (result, c1) = ftp_sendcmd c (cmd_user user) in
    let (second, c2) = ftp_sendcmd c1 (cmd_pass pwd) in
    if has_number result 230
    then (pos 0, c1)
    else if has_number result 331
    then (if not (has_number second 230) then (negsuc 0, c2) else (pos 0, c2))
    else (negsuc 0, c1)

-- The number of the greeting is an argument; a connection that stays is the result.
unfoldable pub connect_server : Ctrl → ℕ → Option Ctrl
connect_server c greeting = if not (greeting == 220) then none else some c

-- The login behind a connection that may have failed.
abbrev pub log_in : Option Ctrl → List ℕ → List ℕ → Option Ctrl
log_in none user pwd = none
log_in (some c) user pwd =
    let (result, c1) = login_server c user pwd in
    if not (has_number result 0) then none else some c1

unfoldable pub ftp_connect : Ctrl → ℕ → List ℕ → List ℕ → Option Ctrl
ftp_connect c greeting user pwd = log_in (connect_server c greeting) user pwd

unfoldable pub ftp_quit : Ctrl → ℤ × Ctrl
ftp_quit c = let (re, c1) = ftp_sendcmd c cmd_quit in (re, record c1 { is_open = false })

-- A command that wants the number `n`: the result is 0 then, and else the number that came, or -1 where the
-- code returns that.
abbrev pub expect : ℕ → ℤ × Ctrl → ℤ × Ctrl
expect n (re, c) = (if has_number re n then pos 0 else re, c)

abbrev pub expect_or_fail : ℕ → ℤ × Ctrl → ℤ × Ctrl
expect_or_fail n (re, c) = (if has_number re n then pos 0 else negsuc 0, c)

unfoldable pub ftp_type : Ctrl → ℕ → ℤ × Ctrl
ftp_type c mode = expect_or_fail 200 (ftp_sendcmd c (cmd_type mode))

unfoldable pub ftp_cwd : Ctrl → List ℕ → ℤ × Ctrl
ftp_cwd c path = expect_or_fail 250 (ftp_sendcmd c (cmd_cwd path))

unfoldable pub ftp_cdup : Ctrl → ℤ × Ctrl
ftp_cdup c = expect 250 (ftp_sendcmd c cmd_cdup)

unfoldable pub ftp_mkd : Ctrl → List ℕ → ℤ × Ctrl
ftp_mkd c path = expect 257 (ftp_sendcmd c (cmd_mkd path))

unfoldable pub ftp_deletefile : Ctrl → List ℕ → ℤ × Ctrl
ftp_deletefile c s = expect 250 (ftp_sendcmd c (cmd_dele s))

unfoldable pub ftp_deletefolder : Ctrl → List ℕ → ℤ × Ctrl
ftp_deletefolder c s = expect 250 (ftp_sendcmd c (cmd_rmd s))

unfoldable pub ftp_renamefile : Ctrl → List ℕ → List ℕ → ℤ × Ctrl
ftp_renamefile c s d =
    let (re, c1) = ftp_sendcmd c (cmd_rnfr s) in
    if not (has_number re 350) then (re, c1) else expect 250 (ftp_sendcmd c1 (cmd_rnto d))

-- `send_re >= 300 || send_re == 0`; a send that failed goes on.
abbrev pub is_refused : ℤ → Bool
is_refused (pos n) = leb 300 n || n == 0
is_refused (negsuc n) = false

-- The buffer of a list: the memory, and how much of it is filled.
pub record Buffer : Type 0 where
  pub cells : List ℕ
  pub total_len : ℕ

-- The bytes of one `recv`; `malloc` gives a memory of a size.
unfoldable pub grow : (ℕ → List ℕ) → Buffer → ℕ → Buffer
grow malloc b len =
    if ltb (length b.cells) (b.total_len + len)
    then record b { cells = put (malloc (length b.cells * 2)) 0 (take b.total_len b.cells) }
    else b

unfoldable pub store_received : (ℕ → List ℕ) → Buffer → List ℕ → Buffer
store_received malloc b chunk =
    let b1 = grow malloc b (length chunk) in
    record { cells = put b1.cells b1.total_len chunk; total_len = b1.total_len + length chunk }

unfoldable pub list_loop : (ℕ → List ℕ) → List (List ℕ) → Buffer → Buffer
list_loop malloc [] b = b
list_loop malloc (chunk ∷ chunks) b =
    let rest = list_loop malloc chunks (store_received malloc b chunk) in
    if length chunk == 0 then b else rest

-- `ftp_list`, where a data connection gives its bytes in chunks, or does not open.
unfoldable pub ftp_list :
    (ℕ → List ℕ) → Ctrl → List ℕ → Option (List (List ℕ)) → ℤ × Option Buffer × Ctrl
ftp_list malloc c path opened =
    let (re, c1) = ftp_sendcmd c cmd_pasv in
    let (send_re, c2) = ftp_sendcmd c1 (cmd_list path) in
    elim opened [
      | none ↦ (negsuc 0, none, c1)
      | some chunks ↦ if is_refused send_re then (send_re, none, c2) else (
        pos 0,
        some (list_loop malloc chunks (record { cells = malloc 1024; total_len = 0 })),
        c2,
      )
    ]

-- A round of the loop that copies a file: what the first call reads, how much of it the second one
-- takes, and whether the caller asks for a stop.
pub record Round : Type 0 where
  pub bytes : List ℕ
  pub taken : ℕ
  pub stop : Bool

-- The bytes at the other end, their count, and whether the loop came to its end.
pub record Copy : Type 0 where
  pub target : List ℕ
  pub stor_size : ℕ
  pub is_whole : Bool

unfoldable pub copy_loop : List Round → List ℕ → ℕ → Copy
copy_loop [] target size = record { target = target; stor_size = size; is_whole = true }
copy_loop (r ∷ rs) target size =
    let written = target ++ take r.taken r.bytes in
    let rest = copy_loop rs written (size + r.taken) in
    if length r.bytes == 0
    then record { target = target; stor_size = size; is_whole = true }
    else if not (r.taken == length r.bytes) || r.stop
    then record { target = written; stor_size = size; is_whole = false }
    else rest

-- The reply behind the data: where none comes, `result` keeps what the command left in it.
abbrev pub last_result : ℤ → Option ℕ → ℤ
last_result result none = result
last_result result (some n) = pos n

abbrev pub settle : ℤ → ℤ
settle (pos n) = if leb 300 n then pos n else pos 0
settle (negsuc n) = pos 0

-- `ftp_retrfile` and `ftp_storfile`: the same steps around two commands. The local file may not open.
unfoldable pub ftp_transfer : Command → Ctrl → Bool → Option (List Round) → ℕ → ℤ × Copy × Ctrl
ftp_transfer cmd c handle opened size =
    let empty : Copy = record { target = []; stor_size = size; is_whole = false } in
    let (mode, c1) = ftp_type c 0x49 in
    let (re, c2) = ftp_sendcmd c1 cmd_pasv in
    let (result, c3) = ftp_sendcmd c2 cmd in
    if not handle then (negsuc 0, empty, c) else elim opened [
      | none ↦ (negsuc 0, empty, c2)
      | some rounds ↦
          let copy = copy_loop rounds [] size in
          if is_refused result
          then (result, empty, c3)
          else if not copy.is_whole
          then (negsuc 0, copy, c3)
          else (
            settle (last_result result (next_reply c3.replies)),
            copy,
            record c3 { replies = later_replies c3.replies },
          )
    ]

unfoldable pub ftp_retrfile : Ctrl → List ℕ → Bool → Option (List Round) → ℕ → ℤ × Copy × Ctrl
ftp_retrfile c s = ftp_transfer (cmd_retr s) c

unfoldable pub ftp_storfile : Ctrl → List ℕ → Bool → Option (List Round) → ℕ → ℤ × Copy × Ctrl
ftp_storfile c d = ftp_transfer (cmd_stor d) c

-- ===== src/Update.antt =====
-- The update of the program by the background program, daemon/updata.cpp. What the FTP server, the shell
-- and the settings give to a poll are arguments; what it does to them is a list.
pub mod Order
pub mod Polls
pub mod Offered
use yd.Prelude.{
  ℕ, ◌+◌, ◌*◌, ◌%◌, ◌^◌, bit_or, List, [], ◌∷◌, ◌++◌, Bool, true, false, ltb, ◌==◌, not, ◌&&◌, ◌||◌,
  if◌then◌else◌,
}
use yd.Prelude.Int.{ℤ, pos, negsuc}

-- The numbers that `sscanf` reads with "V%d.%d.%d_%d_%d.%d.%d"; one that is not there is 0.
pub record Version : Type 0 where
  pub major : ℕ
  pub minor : ℕ
  pub mminor : ℕ
  pub date : ℕ
  pub hour : ℕ
  pub min : ℕ
  pub second : ℕ

-- `h` and `l`, in 64 bits.
unfoldable pub version_high : Version → ℕ
version_high v = bit_or (bit_or (v.major * 2 ^ 3 % 2 ^ 64) v.minor * 2 ^ 3 % 2 ^ 64) v.mminor

unfoldable pub version_low : Version → ℕ
version_low v = (((v.date * 1000000 + v.hour) * 100 + v.min) * 100 + v.second) % 2 ^ 64

unfoldable pub is_version_bigger : Version → Version → ℤ
is_version_bigger current ftp =
    let h = version_high current in
    let fh = version_high ftp in
    let l = version_low current in
    let fl = version_low ftp in
    if ltb fh h
    then negsuc 0
    else if h == fh
    then (if ltb fl l then negsuc 0 else if l == fl then pos 0 else pos 1)
    else pos 1

pub data Act : Type 0 where
  connect : Act
  list_files : Act
  ask_version : Act
  download : Act
  signal_app : Act
  kill_app : Act
  install : Act
  quit : Act

-- What a poll finds: the settings, whether the calls succeed, the versions, the process numbers of the
-- program (0 for none) in the four looks of the two rounds of `shutdown_app`, and the version that
-- runs behind each installation.
pub record World : Type 0 where
  pub enable : ℕ
  pub texts_filled : Bool
  pub interval : ℕ
  pub connects : Bool
  pub lists : Bool
  pub answers : Bool
  pub downloads : Bool
  pub offered : Version
  pub current : Version
  pub pids : ℕ × ℕ
  pub pids_again : ℕ × ℕ
  pub installed : Version
  pub installed_again : Version

-- `ftp_get_setting`: is the result 0?
unfoldable pub ftp_get_setting : World → Bool
ftp_get_setting w = if w.enable == 1 then w.texts_filled else true

-- `shutdown_app`: the acts, and whether the result is 1.
unfoldable pub shutdown_app : ℕ × ℕ → List Act × Bool
shutdown_app (p, pp) =
    if p == 0
    then ([], false)
    else if pp == 0
    then (signal_app ∷ [], false)
    else (signal_app ∷ kill_app ∷ [], true)

-- `install_app`: is the result 0?
unfoldable pub install_app : Version → Version → Bool
install_app debversion result = elim (is_version_bigger debversion result) [
  | pos n ↦ n == 0
  | negsuc n ↦ false
]

-- The installation behind a download: the acts and the result.
unfoldable pub updata_install : World → List Act × ℤ
updata_install w =
    let (acts, alive) = shutdown_app w.pids in
    let again = if alive then (shutdown_app w.pids_again).0 else [] in
    let stopped = acts ++ again in
    if install_app w.offered w.installed
    then (stopped ++ install ∷ [], pos 0)
    else if install_app w.offered w.installed_again
    then (stopped ++ install ∷ install ∷ [], pos 0)
    else (stopped ++ install ∷ install ∷ [], pos 1)

abbrev is_newer : ℤ → Bool
is_newer (pos n) = n == 1
is_newer (negsuc n) = false

-- Behind the connection.
unfoldable pub updata_connected : World → List Act × ℤ
updata_connected w =
    let (acts, result) = updata_install w in
    if not w.lists
    then (connect ∷ list_files ∷ [], negsuc 0)
    else if not w.answers
    then (connect ∷ list_files ∷ ask_version ∷ [], negsuc 0)
    else if not (is_newer (is_version_bigger w.current w.offered))
    then (connect ∷ list_files ∷ ask_version ∷ quit ∷ [], pos 0)
    else if not w.downloads
    then (connect ∷ list_files ∷ ask_version ∷ download ∷ quit ∷ [], pos 0)
    else (connect ∷ list_files ∷ ask_version ∷ download ∷ acts, result)

-- A poll: the static `t` behind it, the acts and the result.
unfoldable pub updata_poll : ℕ → World → ℕ → ℕ × List Act × ℤ
updata_poll interval w t =
    let (acts, result) = updata_connected w in
    if not (ftp_get_setting w)
    then (t, [], pos 0)
    else if w.enable == 0
    then (t + interval, [], pos 0)
    else if ltb (t + interval) w.interval
    then (t + interval, [], pos 0)
    else if not w.connects
    then (0, connect ∷ [], negsuc 0)
    else (0, acts, result)

-- The loop of the program's `main`, a poll each `interval` seconds.
unfoldable pub updata_polls : ℕ → List World → ℕ → List Act
updata_polls interval [] t = []
updata_polls interval (w ∷ ws) t =
    let r = updata_poll interval w t in r.1 ++ updata_polls interval ws r.0

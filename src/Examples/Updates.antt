-- ===== src/Examples/Updates.antt =====
-- Runs of the update on concrete inputs.
use yd.Prelude.{
  ℕ, List, [], ◌∷◌, Option, some, true, ◌≡◌, ◌≤◌, ◌+◌, ◌*◌, refl, arith, replicate, take, get_or,
}
use yd.Update.{Version, World, is_version_bigger, updata_poll, updata_polls}
use yd.Update.Order.{places, by_places, is_version_bigger-by_places}
use yd.Update.Offered.{ftp_list_deb_version, ftp_list_deb_version-old}
use yd.Update.Polls.{
  any, count, is_install, is_connect, is_due, updata_poll-is_due, updata_polls-is_connect,
}

-- V1.3.7_20230412_10.20.30 and V1.4.0_20230105_08.00.00: a younger date does not outdo the smaller number.
abbrev station_version : Version
station_version = record {
  major = 1;
  minor = 3;
  mminor = 7;
  date = 20230412;
  hour = 10;
  min = 20;
  second = 30;
}

abbrev server_version : Version
server_version = record {
  major = 1;
  minor = 4;
  mminor = 0;
  date = 20230105;
  hour = 8;
  min = 0;
  second = 0;
}

is_version_bigger-by_places_example :
    is_version_bigger station_version server_version
    ≡ by_places (places station_version) (places server_version)
is_version_bigger-by_places_example =
    is_version_bigger-by_places station_version server_version
      (record {
        major = omega arith;
        minor = omega arith;
        mminor = omega arith;
        date = omega arith;
        hour = omega arith;
        min = omega arith;
        second = omega arith;
      })
      (record {
        major = omega arith;
        minor = omega arith;
        mminor = omega arith;
        date = omega arith;
        hour = omega arith;
        min = omega arith;
        second = omega arith;
      })

-- The program runs under the number 812 and goes at the signal.
abbrev update_world : World
update_world = record {
  enable = 1;
  texts_filled = true;
  interval = 10;
  connects = true;
  lists = true;
  answers = true;
  downloads = true;
  offered = server_version;
  current = station_version;
  pids = (812, 0);
  pids_again = (0, 0);
  installed = server_version;
  installed_again = server_version;
}

updata_poll-is_due_example :
    any is_install (updata_poll 5 update_world 5).1 ≡ is_due 5 update_world 5
updata_poll-is_due_example = updata_poll-is_due 5 5 update_world

abbrev three_worlds : List World
three_worlds = update_world ∷ update_world ∷ update_world ∷ []

updata_polls-is_connect_example : count is_connect (updata_polls 5 three_worlds 0) * 10 ≤ 0 + 5 * 3
updata_polls-is_connect_example =
    updata_polls-is_connect 10 5 0 three_worlds (refl, (refl, (refl, tt)))

-- "x_V1.tar" in a list, the name of one byte: the buffer keeps four bytes of 35 behind "V1".
abbrev offered_search : List ℕ → Option (ℕ × ℕ)
offered_search text = some (1, 9)

abbrev old_buffer : List ℕ
old_buffer = replicate 12 35

ftp_list_deb_version-old_example :
    let r =
      (ftp_list_deb_version offered_search 1 true
        (32 ∷ 120 ∷ 95 ∷ 86 ∷ 49 ∷ 46 ∷ 116 ∷ 97 ∷ 114 ∷ 10 ∷ [])
        old_buffer).1 in
    (take 2 r ≡ 86 ∷ 49 ∷ []) × (get_or r 3 0 ≡ 35)
ftp_list_deb_version-old_example =
    ftp_list_deb_version-old offered_search 1 (32 ∷ []) (120 ∷ 95 ∷ []) (86 ∷ 49 ∷ [])
      (46 ∷ 116 ∷ 97 ∷ 114 ∷ 10 ∷ []) old_buffer 3 refl refl ((λ e. cc), ((λ e. cc), tt))
      (omega arith) (omega arith) (omega arith) (omega arith)

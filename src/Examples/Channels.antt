-- ===== src/Examples/Channels.antt =====
-- Runs of the choice of the connection and of its closing.
use yd.Prelude.{ℕ, List, [], ◌∷◌, false, ◌≡◌, ◌⊎◌, arith}
use yd.SendMode.{m1}
use yd.Link.{ds_null}
use yd.Examples.Commands.{station}
use yd.Channel.{Channel, get_sendmode}
use yd.Channel.Quiet.{Occurrence, polled, received, occur, count_close, occur-count_close}
use yd.Channel.First.{Untouched, DialledFirst, get_sendmode-DialledFirst}

-- The last packet asked to keep the line, at 1000 ms.
abbrev kept_line : Channel
kept_line = record { etx = 0x1B; utimeout = 601000; calls = [] }

-- Polls in mode 1, an hour later, with the end of another packet between them.
abbrev an_hour : List Occurrence
an_hour = polled m1 3600000 ∷ received 0x04 ∷ polled m1 7200000 ∷ []

occur-count_close_example :
    count_close (occur an_hour kept_line).calls ≡ count_close kept_line.calls
occur-count_close_example =
    occur-count_close an_hour kept_line (omega arith) (tt, (omega arith, (tt, tt)))

-- Two addresses, and a device that was never opened.
abbrev addresses : List (List ℕ)
addresses = (0x31 ∷ []) ∷ (0x32 ∷ []) ∷ []

get_sendmode-DialledFirst_example :
    Untouched kept_line (get_sendmode addresses (1 ∷ []) false ds_null station kept_line)
    ⊎ DialledFirst addresses kept_line
        (get_sendmode addresses (1 ∷ []) false ds_null station kept_line)
get_sendmode-DialledFirst_example =
    get_sendmode-DialledFirst addresses (1 ∷ []) false ds_null station kept_line (omega arith)
      (omega arith)

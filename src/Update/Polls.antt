-- ===== src/Update/Polls.antt =====
-- What the polls for an update of the program do, `updata_poll` of daemon/updata.cpp.
use native.Mathlib.Nat.{mul-suc, suc-mul}
use yd.Prelude.{
  ℕ, suc, leb, length, ◌⊎◌, inl, inr, All, ◌+◌, ◌*◌, ◌≤◌, List, [], ◌∷◌, ◌++◌, Bool, true, false,
  ◌==◌, not, ◌&&◌, ◌||◌, if◌then◌else◌, ◌≡◌, refl, sym, arith,
}
use yd.Prelude.Int.{ℤ, pos}
use yd.Update.{
  Act, World, connect, list_files, ask_version, download, signal_app, kill_app, install, quit,
  ftp_get_setting, shutdown_app, install_app, updata_install, updata_connected, updata_poll,
  updata_polls, is_version_bigger, is_newer,
}

abbrev pub is_install : Act → Bool
is_install install = true
is_install connect = false
is_install list_files = false
is_install ask_version = false
is_install download = false
is_install signal_app = false
is_install kill_app = false
is_install quit = false

abbrev pub is_connect : Act → Bool
is_connect connect = true
is_connect install = false
is_connect list_files = false
is_connect ask_version = false
is_connect download = false
is_connect signal_app = false
is_connect kill_app = false
is_connect quit = false

abbrev pub count : (Act → Bool) → List Act → ℕ
count p [] = 0
count p (a ∷ acts) = let rest = count p acts in if p a then 1 + rest else rest

abbrev pub any : (Act → Bool) → List Act → Bool
any p [] = false
any p (a ∷ acts) = p a || any p acts

count-append :
    (p : Act → Bool) → (acts more : List Act) → count p (acts ++ more) ≡ count p acts + count p more
count-append p [] more = omega arith
count-append p (a ∷ acts) more = ground (arith, count-append p acts more)

any-append :
    (p : Act → Bool) → (acts more : List Act) → any p (acts ++ more) ≡ (any p acts || any p more)
any-append p [] more = refl
any-append p (a ∷ acts) more = ground (arith, any-append p acts more)

count-shutdown_app : (pids : ℕ × ℕ) → count is_connect (shutdown_app pids).0 ≡ 0
unfolding shutdown_app
count-shutdown_app (p, pp) = ground arith

-- One or two installations behind the acts `xs`.
abbrev installs : Bool → Bool → List Act → List Act × ℤ
installs first second xs =
    if first
    then (xs ++ install ∷ [], pos 0)
    else if second
    then (xs ++ install ∷ install ∷ [], pos 0)
    else (xs ++ install ∷ install ∷ [], pos 1)

any-installs :
    (first second : Bool) → (xs : List Act) → any is_install (installs first second xs).0 ≡ true
any-installs true second xs = ground (arith, any-append is_install xs (install ∷ []))
any-installs false true xs = ground (arith, any-append is_install xs (install ∷ install ∷ []))
any-installs false false xs = ground (arith, any-append is_install xs (install ∷ install ∷ []))

count-installs :
    (first second : Bool)
    → (xs : List Act) → count is_connect xs ≡ 0
    → count is_connect (installs first second xs).0 ≡ 0
count-installs true second xs h = omega (arith, count-append is_connect xs (install ∷ []), h)
count-installs false true xs h =
    omega (arith, count-append is_connect xs (install ∷ install ∷ []), h)
count-installs false false xs h =
    omega (arith, count-append is_connect xs (install ∷ install ∷ []), h)

count-if :
    (b : Bool)
    → (xs ys : List Act) → count is_connect xs ≡ 0
    → count is_connect ys ≡ 0
    → count is_connect (xs ++ (if b then ys else [])) ≡ 0
count-if true xs ys h k = omega (arith, count-append is_connect xs ys, h, k)
count-if false xs ys h k = omega (arith, count-append is_connect xs [], h)

any-updata_install : (w : World) → any is_install (updata_install w).0 ≡ true
unfolding updata_install
any-updata_install w =
    any-installs (install_app w.offered w.installed) (install_app w.offered w.installed_again) _

count-updata_install : (w : World) → count is_connect (updata_install w).0 ≡ 0
unfolding updata_install
count-updata_install w =
    count-installs (install_app w.offered w.installed) (install_app w.offered w.installed_again) _ (
      count-if (shutdown_app w.pids).1 (shutdown_app w.pids).0 (shutdown_app w.pids_again).0
        (count-shutdown_app w.pids) (count-shutdown_app w.pids_again))

-- Has a poll all that an installation asks for?
abbrev pub is_due : ℕ → World → ℕ → Bool
is_due interval w t =
    not (w.enable == 0)
    && (not (w.enable == 1) || w.texts_filled)
    && leb w.interval (t + interval)
    && w.connects
    && w.lists
    && w.answers
    && is_newer (is_version_bigger w.current w.offered)
    && w.downloads

-- A poll installs exactly when the update is on, its settings are filled where the switch is 1, the interval
-- is over, the server answers, its list and the version that runs can be read, the offered version is
-- newer, and the download succeeds.
pub updata_poll-is_due :
    (interval t : ℕ)
    → (w : World) → any is_install (updata_poll interval w t).1 ≡ is_due interval w t
unfolding updata_poll updata_connected ftp_get_setting
updata_poll-is_due interval t w = ground (arith, any-updata_install w)

-- Behind the connection there is no other one.
count-updata_connected : (w : World) → count is_connect (updata_connected w).0 ≡ 1
unfolding updata_connected
count-updata_connected w = ground (arith, count-updata_install w)

-- A poll connects once, with its interval over, or not at all.
updata_poll-is_connect :
    (interval t : ℕ)
    → (w : World)
    → let r = updata_poll interval w t in
      (count is_connect r.1 ≡ 0 × r.0 ≤ t + interval)
      ⊎ (count is_connect r.1 ≡ 1 × r.0 ≡ 0 × w.interval ≤ t + interval)
unfolding updata_poll
updata_poll-is_connect interval t w = ground (arith, count-updata_connected w)

-- A poll of the loop, in numbers: `c` connections, then `n` in the polls behind it.
poll_step :
    (every interval t after c n m : ℕ)
    → (c ≡ 0 × after ≤ t + interval) ⊎ (c ≡ 1 × after ≡ 0 × every ≤ t + interval)
    → n * every ≤ after + interval * m
    → (c + n) * every ≤ t + interval * suc m
poll_step every interval t after c n m (inl (e, h)) ih = rw (e, mul-suc interval m) (omega arith)
poll_step every interval t after c n m (inr (e, z, h)) ih =
    rw (e, mul-suc interval m) (omega (arith, suc-mul n every))

-- While the interval of the settings stays the same, the connections of a run of polls, each counted with
-- that interval, fit in the time of the polls and the time that had gone by before.
pub updata_polls-is_connect :
    (every interval t : ℕ)
    → (ws : List World) → All (λ w. w.interval ≡ every) ws
    → count is_connect (updata_polls interval ws t) * every ≤ t + interval * length ws
unfolding updata_polls
updata_polls-is_connect every interval t [] h = omega arith
updata_polls-is_connect every interval t (w ∷ ws) (e, h) =
    let r = updata_poll interval w t in
    rw (count-append is_connect r.1 (updata_polls interval ws r.0)) (
      poll_step every interval t r.0 (count is_connect r.1)
        (count is_connect (updata_polls interval ws r.0)) (length ws)
        (rw (sym e) (updata_poll-is_connect interval t w))
        (updata_polls-is_connect every interval r.0 ws h))

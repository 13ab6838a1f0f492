-- ===== src/Ftp/Files.antt =====
-- What the FTP client copies of a file, `ftp_retrfile` of daemon/ftpclient.cpp.
use mathlib.Core.List.{append-nil}
use yd.Prelude.{
  ℕ, ◌+◌, List, [], ◌∷◌, ◌++◌, some, Bool, true, false, ◌==◌, not, ◌||◌, length, take, take_all,
  if_either, if◌then◌else◌, ◌≡◌, ◌≢◌, refl, sym, ap, ◌∙◌, arith, append_assoc, true-ne-false,
  length-append,
}
use yd.Prelude.Int.{ℤ, pos, negsuc}
use yd.Ftp.{
  Ctrl, Round, Copy, ftp_sendcmd, ftp_type, copy_loop, ftp_transfer, ftp_retrfile, is_refused,
  result_of, next_reply, later_replies,
}
use yd.Ftp.Listing.{IsNumbered, next_reply-IsNumbered, later_replies-IsNumbered}

-- The bytes that come in front of the end of the data.
abbrev pub incoming : List Round → List ℕ
incoming [] = []
incoming (r ∷ rs) = let rest = incoming rs in if length r.bytes == 0 then [] else r.bytes ++ rest

-- The copy has the bytes behind those of the target, and the count went up by their number.
pub record IsCopied (target : List ℕ) (size : ℕ) (bytes : List ℕ) (copy : Copy) : Type 0 where
  pub file : copy.target ≡ target ++ bytes
  pub counted : copy.stor_size ≡ size + length bytes

-- A round that does not end the loop takes all its bytes.
round_whole :
    (r : Round) → (not (r.taken == length r.bytes) || r.stop) ≡ false → r.taken ≡ length r.bytes
round_whole r e = ground arith

-- The three ends of a round.
round_ends :
    (done cut : Bool)
    → (bytes rest target : List ℕ) → (size : ℕ) → (x y z : Copy) → IsCopied target size [] x
    → y.is_whole ≡ false
    → (cut ≡ false → z.is_whole ≡ true → IsCopied target size (bytes ++ rest) z)
    → (if done then x else if cut then y else z).is_whole ≡ true
    → IsCopied target size
        (if done then [] else bytes ++ rest)
        (if done then x else if cut then y else z)
round_ends true cut bytes rest target size x y z h k l e = h
round_ends false true bytes rest target size x y z h k l e = absurd (true-ne-false (sym e ∙ k))
round_ends false false bytes rest target size x y z h k l e = l refl e

copy_loop-IsCopied :
    (rs : List Round)
    → (target : List ℕ) → (size : ℕ) → (copy_loop rs target size).is_whole ≡ true
    → IsCopied target size (incoming rs) (copy_loop rs target size)
unfolding copy_loop
copy_loop-IsCopied [] target size e = record {
  file = sym (append-nil target);
  counted = omega arith;
}
copy_loop-IsCopied (r ∷ rs) target size e =
    round_ends (length r.bytes == 0) (not (r.taken == length r.bytes) || r.stop) r.bytes
      (incoming rs) target size (record { target = target; stor_size = size; is_whole = true })
      (record { target = target ++ take r.taken r.bytes; stor_size = size; is_whole = false })
      (copy_loop rs (target ++ take r.taken r.bytes) (size + r.taken))
      (record { file = sym (append-nil target); counted = omega arith }) refl
      (λ cut whole.
        let ih = copy_loop-IsCopied rs (target ++ take r.taken r.bytes) (size + r.taken) whole in
        let all : r.taken ≡ length r.bytes = round_whole r cut in
        let same : take r.taken r.bytes ≡ r.bytes = take_all r.taken r.bytes (omega (arith, all)) in
        record {
          file =
              ih.file
              ∙ ap (λ ys. (target ++ ys) ++ incoming rs) same
              ∙ append_assoc target r.bytes (incoming rs);
          counted = omega (arith, ih.counted, all, length-append r.bytes (incoming rs));
        })
      e

failed : negsuc 0 ≢ pos 0
failed e = cc

-- The ends of a transfer.
transfer_ends :
    (handle refused : Bool)
    → (bytes : List ℕ) → (size : ℕ) → (result last : ℤ) → (empty copy : Copy) → (c c1 c2 : Ctrl)
    → result ≢ pos 0
    → (copy.is_whole ≡ true → IsCopied [] size bytes copy)
    → let t : ℤ × Copy × Ctrl =
        if not handle
        then (negsuc 0, empty, c)
        else if refused
        then (result, empty, c1)
        else if not copy.is_whole
        then (negsuc 0, copy, c1)
        else (last, copy, c2) in
      t.0 ≡ pos 0 → IsCopied [] size bytes t.1
transfer_ends false refused bytes size result last empty copy c c1 c2 h k e = absurd (failed e)
transfer_ends true true bytes size result last empty copy c c1 c2 h k e = absurd (h e)
transfer_ends true false bytes size result last empty copy c c1 c2 h k e =
    if_either (λ (t : ℤ × Copy × Ctrl). t.0 ≡ pos 0 → IsCopied [] size bytes t.1)
      (not copy.is_whole) (λ cut fail. absurd (failed fail)) (λ whole done. k (ground arith)) e

-- A download that ends with 0, over a data connection that opened and with a number in every reply, has
-- copied every byte in front of the end of the data, and counted them.
pub ftp_retrfile-IsCopied :
    (c : Ctrl)
    → (s : List ℕ) → (handle : Bool) → (rounds : List Round) → (size : ℕ) → IsNumbered c.replies
    → (ftp_retrfile c s handle (some rounds) size).0 ≡ pos 0
    → IsCopied [] size (incoming rounds) (ftp_retrfile c s handle (some rounds) size).1
unfolding ftp_retrfile ftp_transfer ftp_sendcmd ftp_type
ftp_retrfile-IsCopied c s handle rounds size h e =
    let replies = later_replies (later_replies c.replies) in
    transfer_ends handle (is_refused (result_of (next_reply replies))) (incoming rounds) size
      (result_of (next_reply replies)) _ _ (copy_loop rounds [] size) _ _ _
      (next_reply-IsNumbered replies
        (later_replies-IsNumbered (later_replies c.replies) (later_replies-IsNumbered c.replies h)))
      (copy_loop-IsCopied rounds [] size) e

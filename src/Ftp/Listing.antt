-- ===== src/Ftp/Listing.antt =====
-- What a list of the FTP client holds, `ftp_list` of daemon/ftpclient.cpp.
use yd.Prelude.{
  ℕ, ◌+◌, ◌*◌, ◌≤◌, List, [], ◌∷◌, ◌++◌, Option, none, some, Bool, true, false, ltb, ◌==◌, length,
  take, put, All, if_either, ltb_false→le, length-take, subst, if◌then◌else◌, ◌≡◌, ◌≢◌, refl, sym,
  ap, ◌∙◌, arith, take-put, length-put, append_assoc,
}
use mathlib.Core.List.{append-nil}
use yd.Prelude.Int.{ℤ, pos, negsuc}
use yd.Ftp.{
  Ctrl, Buffer, ftp_sendcmd, grow, store_received, list_loop, ftp_list, is_refused, result_of,
  next_reply, later_replies,
}

-- The bytes of the chunks in front of the first empty one.
abbrev pub arrived : List (List ℕ) → List ℕ
arrived [] = []
arrived (chunk ∷ chunks) =
    let rest = arrived chunks in if length chunk == 0 then [] else chunk ++ rest

-- The filled part of a buffer holds the bytes and lies within the memory.
pub record IsFilled (bytes : List ℕ) (b : Buffer) : Type 0 where
  pub fits : b.total_len ≤ length b.cells
  pub is_wide : 1024 ≤ length b.cells
  pub filled : take b.total_len b.cells ≡ bytes

-- A list is there, and its buffer holds the bytes.
abbrev pub IsListed : List ℕ → Option Buffer → Type 0
IsListed bytes none = ⊥
IsListed bytes (some b) = IsFilled bytes b

-- Every reply has a number.
abbrev pub IsNumbered : List (Option ℕ) → Type 0
IsNumbered rs = All (λ r. r ≢ some 0) rs

pub next_reply-IsNumbered :
    (rs : List (Option ℕ)) → IsNumbered rs → result_of (next_reply rs) ≢ pos 0
next_reply-IsNumbered [] h e = cc
next_reply-IsNumbered (none ∷ rs) h e = cc
next_reply-IsNumbered (some n ∷ rs) h e = h.0 (ap (λ (z : ℤ). some (number z)) e)
  where
    number : ℤ → ℕ
    number (pos m) = m
    number (negsuc m) = 0

pub later_replies-IsNumbered :
    (rs : List (Option ℕ)) → IsNumbered rs → IsNumbered (later_replies rs)
later_replies-IsNumbered [] h = tt
later_replies-IsNumbered (r ∷ rs) h = h.1

-- The two ends of a list, for a result that is not 0 by itself.
either-IsListed :
    (bytes : List ℕ)
    → (b : Buffer) → (c d : Ctrl) → (result : ℤ) → (refused : Bool) → result ≢ pos 0
    → IsFilled bytes b
    → let r : ℤ × Option Buffer × Ctrl =
        if refused then (result, none, c) else (pos 0, some b, d) in
      r.0 ≡ pos 0 → IsListed bytes r.1
either-IsListed bytes b c d result true h k e = absurd (h e)
either-IsListed bytes b c d result false h k e = k

module _ (malloc : ℕ → List ℕ) (size : (n : ℕ) → length (malloc n) ≡ n) where
  -- The larger memory has the same bytes, and place for a chunk.
  grow-IsFilled :
      (bytes : List ℕ)
      → (b : Buffer) → (len : ℕ) → len ≤ 1024
      → IsFilled bytes b
      → IsFilled bytes (grow malloc b len)
        × (grow malloc b len).total_len + len ≤ length (grow malloc b len).cells
  unfolding grow
  grow-IsFilled bytes b len h k =
      if_either (λ (x : Buffer). IsFilled bytes x × x.total_len + len ≤ length x.cells)
        (ltb (length b.cells) (b.total_len + len))
        (λ less.
          let wide = size (length b.cells * 2) in
          let copied = take b.total_len b.cells in
          let room = length-put copied (malloc (length b.cells * 2)) 0 in
          let whole : 0 + length copied ≡ b.total_len =
            omega (arith, length-take b.total_len b.cells, k.fits) in
          let back =
            take-put copied (malloc (length b.cells * 2)) 0 (omega (arith, wide, whole, k.fits)) in
          (
            record {
              fits = omega (arith, wide, room, k.fits);
              is_wide = omega (arith, wide, room, k.is_wide);
              filled =
                  subst (λ (n : ℕ). take n (put (malloc (length b.cells * 2)) 0 copied) ≡ copied)
                    whole back
                  ∙ k.filled;
            },
            omega (arith, wide, room, k.fits, k.is_wide, h),
          ))
        (λ more. (k, ltb_false→le (length b.cells) (b.total_len + len) more))

  store_received-IsFilled :
      (bytes chunk : List ℕ)
      → (b : Buffer) → length chunk ≤ 1024
      → IsFilled bytes b
      → IsFilled (bytes ++ chunk) (store_received malloc b chunk)
  unfolding store_received
  store_received-IsFilled bytes chunk b h k =
      let g = grow-IsFilled bytes b (length chunk) h k in
      let b1 = grow malloc b (length chunk) in
      let same = length-put chunk b1.cells b1.total_len in
      record {
        fits = omega (arith, same, g.1);
        is_wide = omega (arith, same, g.0.is_wide);
        filled = take-put chunk b1.cells b1.total_len g.1 ∙ ap (λ xs. xs ++ chunk) g.0.filled;
      }

  list_loop-IsFilled :
      (chunks : List (List ℕ))
      → (bytes : List ℕ) → (b : Buffer) → All (λ chunk. length chunk ≤ 1024) chunks
      → IsFilled bytes b
      → IsFilled (bytes ++ arrived chunks) (list_loop malloc chunks b)
  unfolding list_loop
  list_loop-IsFilled [] bytes b h k = rw (append-nil bytes) k
  list_loop-IsFilled (chunk ∷ chunks) bytes b h k =
      if_either
        (λ (x : Buffer).
          IsFilled (bytes ++ (if length chunk == 0 then [] else chunk ++ arrived chunks)) x)
        (length chunk == 0) (λ e. rw (e, append-nil bytes) k)
        (λ e.
          let ih =
            list_loop-IsFilled chunks (bytes ++ chunk) (store_received malloc b chunk) h.1
              (store_received-IsFilled bytes chunk b h.0 k) in
          rw (e, sym (append_assoc bytes chunk (arrived chunks))) ih)

  -- A list that the client reports as received, in chunks of at most 1024 bytes and with a number in every
  -- reply, holds the bytes of the chunks in front of the end of the data, and its buffer was large enough,
  -- where `malloc` gives memory of the size asked for.
  pub ftp_list-IsListed :
      (c : Ctrl)
      → (path : List ℕ) → (chunks : List (List ℕ)) → IsNumbered c.replies
      → All (λ chunk. length chunk ≤ 1024) chunks
      → (ftp_list malloc c path (some chunks)).0 ≡ pos 0
      → IsListed (arrived chunks) (ftp_list malloc c path (some chunks)).1
  unfolding ftp_list ftp_sendcmd
  ftp_list-IsListed c path chunks h k e =
      either-IsListed (arrived chunks)
        (list_loop malloc chunks (record { cells = malloc 1024; total_len = 0 })) _ _
        (result_of (next_reply (later_replies c.replies)))
        (is_refused (result_of (next_reply (later_replies c.replies))))
        (next_reply-IsNumbered (later_replies c.replies) (later_replies-IsNumbered c.replies h))
        (list_loop-IsFilled chunks [] (record { cells = malloc 1024; total_len = 0 }) k
          (record { fits = omega arith; is_wide = omega (arith, size 1024); filled = refl }))
        e

-- ===== src/EventProxy/Read/Loops.antt =====
-- What one round of the read loop does to the text, and what follows for whole messages.
use multiplexing_proxy.Prelude.{
  ℕ, suc, ◌+◌, ◌≤◌, ◌<◌, ◌≡◌, refl, List, [], ◌∷◌, ◌++◌, length, drop, done, fault, arith, true,
  false, add64, sub64, ==_iff,
}
use multiplexing_proxy.Memory.{
  Bytes, c_str, contains, Holds, IsText, put-drop, put-fault, strcat-Holds, c_str-prepend,
}
use multiplexing_proxy.Platform.{Platform, IsLinux}
use multiplexing_proxy.EventProxy.Read.{
  Read, got, failed, Leaving, after_read, read_loop, blank_line,
}

-- `tempBuf` after a read of `bs`: the bytes behind the chunk are those of earlier rounds.
abbrev pub refill : Bytes → Bytes → Bytes
refill temp bs = bs ++ drop (length bs) temp

-- The text grows by all that `tempBuf` holds before a NUL.
after_read_lem :
    (text temp : Bytes) {n : ℕ} {t s : Bytes}
    → Holds text n t
    → c_str temp ≡ done s
    → length t + length s < n
    → (r : Bytes) × (after_read text temp ≡ done (r, contains s blank_line)) × Holds r n (t ++ s)
unfolding after_read
after_read_lem text temp h q fits =
    let (r, stored, held) = strcat-Holds text temp h q fits in (r, rw (stored, q), held)

-- A read that delivers a blank line ends the loop: the text is the old text, the chunk, and
-- whatever string `tempBuf` still held behind the chunk.
pub read_loop_last :
    (os : Platform) (text temp : Bytes) (nleft passed c : ℕ) (cs : Bytes) (answers : List Read)
    {n : ℕ} {t tail : Bytes}
    → Holds text n t
    → IsText (c ∷ cs)
    → length (c ∷ cs) ≤ length temp
    → c_str (drop (length (c ∷ cs)) temp) ≡ done tail
    → length t + length ((c ∷ cs) ++ tail) < n
    → contains ((c ∷ cs) ++ tail) blank_line ≡ true
    → (r : Bytes) × (read_loop os text temp (suc nleft) passed (got (c ∷ cs) ∷ answers)
        ≡ done
            (record { text = r; passed = add64 passed (length (c ∷ cs)); leaving = Leaving.ended }))
      × Holds r n (t ++ ((c ∷ cs) ++ tail))
unfolding read_loop
read_loop_last os text temp nleft passed c cs answers {n} {t} {tail} h ok room q fits found =
    let (r, ran, held) =
      after_read_lem text (refill temp (c ∷ cs)) h
        (c_str-prepend (c ∷ cs) (drop (length (c ∷ cs)) temp) ok q) fits in
    (r, rw (put-drop temp (c ∷ cs) room) (rw ran (rw found)), held)

-- A read that delivers none goes on, with that text.
pub read_loop_more :
    (os : Platform) (text temp : Bytes) (nleft passed c : ℕ) (cs : Bytes) (answers : List Read)
    {n : ℕ} {t tail : Bytes}
    → Holds text n t
    → IsText (c ∷ cs)
    → length (c ∷ cs) ≤ length temp
    → c_str (drop (length (c ∷ cs)) temp) ≡ done tail
    → length t + length ((c ∷ cs) ++ tail) < n
    → contains ((c ∷ cs) ++ tail) blank_line ≡ false
    → (r : Bytes) × (read_loop os text temp (suc nleft) passed (got (c ∷ cs) ∷ answers)
        ≡ read_loop os r
            (refill temp (c ∷ cs))
            (sub64 (suc nleft) (length (c ∷ cs)))
            (add64 passed (length (c ∷ cs)))
            answers)
      × Holds r n (t ++ ((c ∷ cs) ++ tail))
unfolding read_loop
read_loop_more os text temp nleft passed c cs answers {n} {t} {tail} h ok room q fits none =
    let (r, ran, held) =
      after_read_lem text (refill temp (c ∷ cs)) h
        (c_str-prepend (c ∷ cs) (drop (length (c ∷ cs)) temp) ok q) fits in
    (r, rw (put-drop temp (c ∷ cs) room) (rw ran (rw none)), held)

-- More bytes than `tempBuf` has are stored behind its end.
pub read_loop_overflow :
    (os : Platform) (text temp : Bytes) (nleft passed : ℕ) (bs : Bytes) (answers : List Read)
    → length temp < length bs
    → read_loop os text temp (suc nleft) passed (got bs ∷ answers) ≡ fault
unfolding read_loop
read_loop_overflow os text temp nleft passed [] answers over = absurd (omega arith)
read_loop_overflow os text temp nleft passed (c ∷ cs) answers over =
    rw (put-fault temp (c ∷ cs) over)

-- An interrupted read appends what `tempBuf` holds once more.
pub read_loop_interrupted :
    (os : Platform) (text temp : Bytes) (nleft passed : ℕ) (answers : List Read) {n : ℕ}
    {t s : Bytes}
    → Holds text n t
    → c_str temp ≡ done s
    → length t + length s < n
    → contains s blank_line ≡ false
    → (r : Bytes) × (read_loop os text temp (suc nleft) passed (failed os.eintr ∷ answers)
        ≡ read_loop os r temp (suc nleft) passed answers)
      × Holds r n (t ++ s)
unfolding read_loop
read_loop_interrupted os text temp nleft passed answers h q fits none =
    let (r, ran, held) = after_read_lem text temp h q fits in
    (r, rw ((==_iff os.eintr os.eintr).1 refl) (rw ran (rw none)), held)

-- Nothing there for now: the loop is left, and text and counter stay.
pub read_loop_pause :
    (os : Platform) (text temp : Bytes) (nleft passed : ℕ) (answers : List Read)
    → IsLinux os
    → read_loop os text temp (suc nleft) passed (failed os.eagain ∷ answers)
      ≡ done (record { text = text; passed = passed; leaving = Leaving.paused })
unfolding read_loop
read_loop_pause os text temp nleft passed answers linux = ground arith

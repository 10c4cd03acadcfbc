-- ===== src/EventProxy/Read/Pieces.antt =====
-- A message that comes in pieces, each no shorter than the one before, in an object that was
-- cleared.
use mathlib.Core.List.{append_assoc, append-nil}
use native.Mathlib.Nat.{add-zero, sub-zero}
use multiplexing_proxy.Prelude.{
  ℕ, suc, ◌+◌, ◌-◌, ◌^◌, ◌≤◌, ◌<◌, ◌≡◌, refl, sym, ap, ◌∙◌, subst, false, List, [], ◌∷◌, ◌++◌, map,
  length, drop, done, arith, if◌then◌else◌, add64, sub64, length-append, length-drop, drop-add,
  drop-length-append,
}
use multiplexing_proxy.Memory.{
  Bytes, c_str, strcat, put, calloc, contains, terminated, IsText, IsText-append, put-drop,
  put_at-append, c_str-prepend, c_str-drop-calloc, drop-calloc, calloc_suc, length-calloc,
}
use multiplexing_proxy.Platform.{Platform}
use multiplexing_proxy.EventProxy.Read.{Read, got, Leaving, after_read, read_loop, blank_line}
use multiplexing_proxy.EventProxy.Read.Loops.{refill}

-- An object of `n` bytes with a string and only NULs behind it.
abbrev pub padded : ℕ → Bytes → Bytes
padded n t = t ++ calloc (n - length t)

pub put-padded :
    (s : Bytes) (n : ℕ) → length s < n → put (calloc n) (terminated s) ≡ done (padded n s)
put-padded s n h =
    put-drop (calloc n) (terminated s) (omega (arith, length-append s (0 ∷ []), length-calloc n))
    ∙ rw
        (
          drop-calloc (length (terminated s)) n (omega (arith, length-append s (0 ∷ []))),
          calloc_suc (n - length s) (omega arith),
          append_assoc,
        )
        (ap (λ (m : ℕ). done (s ++ 0 ∷ calloc m)) (omega (arith, length-append s (0 ∷ []))))

pub c_str-padded : (n : ℕ) (t : Bytes) → IsText t → length t < n → c_str (padded n t) ≡ done t
c_str-padded n t ok h =
    c_str-prepend t (calloc (n - length t)) ok (c_str-drop-calloc 0 (n - length t) (omega arith))
    ∙ ap done (append-nil t)

strcat-padded :
    (n : ℕ) (t s src : Bytes)
    → IsText t
    → c_str src ≡ done s
    → length t + length s < n
    → strcat (padded n t) src ≡ done (padded n (t ++ s))
unfolding strcat
strcat-padded n t s src ok given fits = rw (c_str-padded n t ok (omega arith)) (
    rw given (
      rw
        (
          put_at-append t (calloc (n - length t)) (terminated s),
          put-padded s (n - length t) (omega arith),
          append_assoc,
        )
        (ap (λ (m : ℕ). done (t ++ (s ++ calloc m))) (omega (arith, length-append t s)))))

-- Behind the first `k` bytes, wherever a read ends, there is a NUL.
abbrev pub Clear : ℕ → Bytes → Type 0
Clear k temp = (m : ℕ) → k ≤ m → m < length temp → c_str (drop m temp) ≡ done []

pub calloc-Clear : (n : ℕ) → Clear 0 (calloc n)
calloc-Clear n m h k = c_str-drop-calloc m n (omega (arith, length-calloc n))

length-refill : (temp bs : Bytes) → length bs ≤ length temp → length (refill temp bs) ≡ length temp
length-refill temp bs h =
    omega (arith, length-append bs (drop (length bs) temp), length-drop (length bs) temp)

refill-Clear :
    (temp bs : Bytes) (k : ℕ)
    → k ≤ length bs
    → length bs ≤ length temp
    → Clear k temp
    → Clear (length bs) (refill temp bs)
refill-Clear temp bs k grows room clear m h short =
    ap c_str (
      ap (λ i. drop i (refill temp bs)) past
      ∙ drop-add (length bs) (m - length bs) (refill temp bs)
      ∙ ap (drop (m - length bs)) (drop-length-append bs (drop (length bs) temp))
      ∙ sym (drop-add (length bs) (m - length bs) temp)
      ∙ ap (λ i. drop i temp) (sym past))
    ∙ clear m (omega arith) (omega (arith, length-refill temp bs room))
  where
    past : m ≡ length bs + (m - length bs)
    past = omega arith

-- A round on a piece.
pub read_loop_piece :
    (os : Platform) (n nleft passed : ℕ) (t temp bs : Bytes) (answers : List Read)
    → IsText t
    → IsText bs
    → 0 < length bs
    → length bs < length temp
    → length t + length bs < n
    → c_str (drop (length bs) temp) ≡ done []
    → read_loop os (padded n t) temp (suc nleft) passed (got bs ∷ answers) ≡ (
        if contains bs blank_line
        then done (record {
          text = padded n (t ++ bs);
          passed = add64 passed (length bs);
          leaving = Leaving.ended;
        })
        else read_loop os
            (padded n (t ++ bs))
            (refill temp bs)
            (sub64 (suc nleft) (length bs))
            (add64 passed (length bs))
            answers)
unfolding read_loop after_read
read_loop_piece os n nleft passed t temp [] answers okt okb some_bytes room fits nul =
    absurd (omega arith)
read_loop_piece os n nleft passed t temp (c ∷ cs) answers okt okb some_bytes room fits nul =
    let chunk : c_str (refill temp (c ∷ cs)) ≡ done (c ∷ cs) =
      c_str-prepend (c ∷ cs) (drop (suc (length cs)) temp) okb nul
      ∙ ap done (append-nil (c ∷ cs)) in
    rw (put-drop temp (c ∷ cs) (omega arith))
      (rw (strcat-padded n t (c ∷ cs) (refill temp (c ∷ cs)) okt chunk fits) (rw chunk refl))

-- Pieces that fit into an object of `room` bytes, each no shorter than the one before, of which
-- none shows a blank line.
abbrev pub ArePieces : ℕ → ℕ → List Bytes → Type 0
ArePieces room k [] = Unit
ArePieces room k (bs ∷ pieces) =
    IsText bs
    × (0 < length bs)
    × (k ≤ length bs)
    × (length bs < room)
    × (contains bs blank_line ≡ false)
    × ArePieces room (length bs) pieces

abbrev pub joined : List Bytes → Bytes
joined [] = []
joined (bs ∷ pieces) = bs ++ joined pieces

abbrev pub last_length : ℕ → List Bytes → ℕ
last_length k [] = k
last_length k (bs ∷ pieces) = last_length (length bs) pieces

pub joined-IsText :
    (room k : ℕ) (pieces : List Bytes) → ArePieces room k pieces → IsText (joined pieces)
joined-IsText room k [] h = tt
joined-IsText room k (bs ∷ pieces) h =
    IsText-append bs (joined pieces) h.0 (joined-IsText room (length bs) pieces h.5)

-- Where the loop stands behind pieces without a blank line.
pub record GoesOn (os : Platform) (n nleft passed : ℕ) (t temp : Bytes) (pieces : List Bytes)
    (k : ℕ) (answers : List Read) : Type 0 where
  pub left : Bytes
  pub size : length left ≡ length temp
  pub clear : Clear (last_length k pieces) left
  pub goes_on :
      read_loop os (padded n t) temp (suc nleft) passed (map got pieces ++ answers)
      ≡ read_loop os
          (padded n (t ++ joined pieces))
          left
          (suc (nleft - length (joined pieces)))
          (passed + length (joined pieces))
          answers

pub read_loop_pieces :
    (os : Platform) (n nleft passed : ℕ) (t temp : Bytes) (pieces : List Bytes) (k : ℕ)
    (answers : List Read)
    → IsText t
    → ArePieces (length temp) k pieces
    → Clear k temp
    → length t + length (joined pieces) < n
    → length (joined pieces) ≤ nleft
    → nleft < 2 ^ 63
    → passed + length (joined pieces) < 2 ^ 63
    → GoesOn os n nleft passed t temp pieces k answers
read_loop_pieces os n nleft passed t temp [] k answers okt okp clear fits left small counts =
    record {
      left = temp;
      size = refl;
      clear = clear;
      goes_on = simp (append-nil, add-zero, sub-zero);
    }
read_loop_pieces os n nleft passed t temp (bs ∷ pieces) k answers okt
      (okb, some_bytes, grows, room, none, okp) clear fits left small counts =
    let total = length-append bs (joined pieces) in
    let rest =
      read_loop_pieces os n (nleft - length bs) (passed + length bs) (t ++ bs) (refill temp bs)
        pieces (length bs) answers (IsText-append t bs okt okb)
        (subst (λ m. ArePieces m (length bs) pieces) (sym (length-refill temp bs (omega arith)))
          okp)
        (refill-Clear temp bs k grows (omega arith) clear) (omega (arith, length-append t bs))
        (omega arith) (omega arith) (omega arith) in
    record {
      left = rest.left;
      size = rest.size ∙ length-refill temp bs (omega arith);
      clear = rest.clear;
      goes_on =
          read_loop_piece os n nleft passed t temp bs (map got pieces ++ answers) okt okb some_bytes
            room (omega arith) (clear (length bs) grows room)
          ∙ rw (none) (
              rw (left_over, counted)
                (rest.goes_on ∙ rw (append_assoc t bs (joined pieces), less, more) refl));
    }
  where
    left_over : sub64 (suc nleft) (length bs) ≡ suc (nleft - length bs)
    left_over = omega (arith, length-append bs (joined pieces))

    counted : add64 passed (length bs) ≡ passed + length bs
    counted = omega (arith, length-append bs (joined pieces))

    less : nleft - length bs - length (joined pieces) ≡ nleft - length (bs ++ joined pieces)
    less = omega (arith, length-append bs (joined pieces))

    more : passed + length bs + length (joined pieces) ≡ passed + length (bs ++ joined pieces)
    more = omega (arith, length-append bs (joined pieces))

-- ===== src/Cgi/Slow/Length.antt =====
-- What `slow` does for a query of two numbers.
use mathlib.Core.List.{append_assoc, append-nil}
use multiplexing_proxy.Prelude.{
  ℕ, zero, suc, ◌+◌, ◌/◌, ◌%◌, ◌^◌, ◌<◌, ◌≡◌, refl, ap, ◌∙◌, List, [], ◌∷◌, ◌++◌, length, Option,
  none, some, done, arith, ℤ, pos, ltb, if◌then◌else◌,
}
use multiplexing_proxy.Memory.{
  Bytes, c_str, IsText, IsText-append, c_str-append, put, put_at-append,
}
use multiplexing_proxy.EventProxy.Wire.{codes}
use multiplexing_proxy.Tiny.Uri.{index}
use multiplexing_proxy.Tiny.Print.{decimal}
use multiplexing_proxy.Tiny.Print.Decimal.{
  AllDigits, decimal-AllDigits, digits-IsText, spelled, spelled-decimal,
}
use multiplexing_proxy.Cgi.Adder.{cgi_header}
use multiplexing_proxy.Cgi.Adder.Sum.{
  add_int_pos, index_digits, cut_and_lem, behind_cut, arguments_lem, header_end, header_whole,
}
use multiplexing_proxy.Cgi.Slow.{Act, sleeps, writes, cut_second, letters, fill_and_send, slow}

-- The alphabet over and over, from letter `i` on: `n` letters.
abbrev pub alphabet : ℕ → ℕ → Bytes
alphabet i zero = []
alphabet i (suc n) = (b'a' + i % 26) ∷ alphabet (i + 1) n

-- The sleep on the way, if the half is not behind.
abbrev pub halfway : ℤ → ℕ → ℕ → ℕ → List Act
halfway n1 half i n = if ltb half i then [] else if ltb half (i + n) then sleeps n1 ∷ [] else []

letters_lem : (n1 : ℤ) (n2 i n : ℕ) → letters n1 n2 i n ≡ (alphabet i n, halfway n1 (n2 / 2) i n)
unfolding letters
letters_lem n1 n2 i zero = ground arith
letters_lem n1 n2 i (suc n) = rw (letters_lem n1 n2 (i + 1) n) (ground arith)

length-alphabet : (i n : ℕ) → length (alphabet i n) ≡ n
length-alphabet i zero = refl
length-alphabet i (suc n) = ap suc (length-alphabet (i + 1) n)

-- What may stand behind the second number: nothing, or an '&' and more.
abbrev pub third : Option Bytes → Bytes
third none = []
third (some more) = b'&' ∷ more

abbrev pub IsThird : Option Bytes → Type 0
IsThird none = Unit
IsThird (some more) = IsText more

third-IsText : (o : Option Bytes) → IsThird o → IsText (third o)
third-IsText none h = tt
third-IsText (some more) h = (omega arith, h)

index-none : (s : Bytes) → AllDigits s → index s b'&' ≡ none
unfolding index
index-none [] h = refl
index-none (c ∷ s) h = ground (arith, index-none s h.1)

cut_second_lem :
    (s rest : Bytes) (o : Option Bytes)
    → AllDigits s
    → IsThird o
    → (r : Bytes) × (cut_second ((s ++ third o) ++ 0 ∷ rest) ≡ done r) × (c_str r ≡ done s)
unfolding cut_second put
cut_second_lem s rest none digits ok =
    let ends = c_str-append s rest (digits-IsText s digits) in
    (s ++ 0 ∷ rest, rw (append-nil s, ends) (rw (index-none s digits)), ends)
cut_second_lem s rest (some more) digits ok =
    let text =
      c_str-append (s ++ b'&' ∷ more) rest
        (IsText-append s (b'&' ∷ more) (digits-IsText s digits) (omega arith, ok)) in
    (
      s ++ 0 ∷ (more ++ 0 ∷ rest),
      rw text (
          rw (index_digits s more digits, append_assoc s (b'&' ∷ more) (0 ∷ rest))
            (put_at-append s (b'&' ∷ (more ++ 0 ∷ rest)) (0 ∷ []))),
      c_str-append s (more ++ 0 ∷ rest) (digits-IsText s digits),
    )

fill_and_send_lem :
    (a b : ℕ)
    → b + 1 < 2 ^ 31
    → fill_and_send (pos a) (pos b)
      ≡ done (
          (if ltb 0 b then sleeps (pos a) ∷ [] else [])
          ++ writes (cgi_header b) ∷ sleeps (pos a) ∷ writes (alphabet 0 b) ∷ [])
unfolding fill_and_send
fill_and_send_lem a b small =
    rw (add_int_pos b 1 small, letters_lem (pos a) b 0 b, length-alphabet 0 b) (ground arith)

-- For a query of two decimal numbers `a` and `b` with an '&' between them, and perhaps a third part
-- behind another '&', where the digits fit into the two arrays, `a` is an `int` and `b + 1` is one:
-- `slow` sleeps `a` seconds while it fills its buffer, unless `b` is 0, writes the three header
-- lines and an empty line, sleeps `a` seconds again, and writes exactly `b` letters, which run
-- through the alphabet over and over; a client that reads the digits behind "Content-length: "
-- reads `b`.
pub slow_lem :
    (a b : ℕ) (o : Option Bytes) (rest arg1 arg2 : Bytes)
    → IsThird o
    → a < 2 ^ 31
    → b + 1 < 2 ^ 31
    → length (decimal a) < length arg1
    → length (decimal b) < length arg2
    → (digits : Bytes) × (slow
          (some (decimal a ++ b'&' ∷ ((decimal b ++ third o) ++ 0 ∷ rest)))
          arg1
          arg2
        ≡ done (
            (if ltb 0 b then sleeps (pos a) ∷ [] else [])
            ++ writes (codes "Connection: close\r\nContent-length: " ++ (digits ++ header_end))
              ∷ sleeps (pos a)
              ∷ writes (alphabet 0 b)
              ∷ []))
      × (spelled 0 (digits ++ header_end) ≡ b)
      × (length (alphabet 0 b) ≡ b)
unfolding slow spelled
slow_lem a b o rest arg1 arg2 ok sa sb fa fb =
    let right : Bytes = (decimal b ++ third o) ++ 0 ∷ rest in
    let (r, cut, text) = cut_second_lem (decimal b) rest o (decimal-AllDigits b) ok in
    (
      decimal b,
      rw
          (cut_and_lem (decimal a) (decimal b ++ third o) rest (decimal-AllDigits a) (
            IsText-append (decimal b) (third o) (digits-IsText (decimal b) (decimal-AllDigits b))
              (third-IsText o ok)))
          (rw (behind_cut (decimal a) right 0) (
            rw cut (
              rw
                (arguments_lem a b (decimal a ++ 0 ∷ right) r arg1 arg2
                  (c_str-append (decimal a) right (digits-IsText (decimal a) (decimal-AllDigits a)))
                  text sa (omega arith) fa fb)
                (fill_and_send_lem a b sb
                  ∙ ap
                      (λ (h : Bytes). done (
                        (if ltb 0 b then sleeps (pos a) ∷ [] else [])
                        ++ writes h ∷ sleeps (pos a) ∷ writes (alphabet 0 b) ∷ []))
                      (header_whole b))))),
      spelled-decimal b header_end,
      length-alphabet 0 b,
    )

-- ===== src/Cgi/Atoi.antt =====
-- `atoi` and the `int` arithmetic of the CGI programs. A result that is no `int` is undefined.
use mathlib.Core.List.{append-nil}
use multiplexing_proxy.Prelude.{
  sym, ap, lt→ltb, ℕ, suc, ◌^◌, ◌≤◌, ◌<◌, ◌≡◌, refl, ◌∙◌, false, ◌&&◌, [], ◌∷◌, ◌++◌, Result, done,
  fault, ◌==◌, leb, ltb, if◌then◌else◌, ℤ, pos, negsuc, pos_part, neg_part, ◌+ℤ◌, sub_ℕ, arith,
}
use multiplexing_proxy.Memory.{Bytes}
use multiplexing_proxy.Tiny.Doit.{is_space, skip_space}
use multiplexing_proxy.Tiny.Print.{decimal}
use multiplexing_proxy.Tiny.Print.Decimal.{spelled, AllDigits, decimal_head, spelled-decimal}

-- An `int`, from its parts.
unfoldable pub in_int : ℤ → Result ℤ
in_int z = if ltb (pos_part z) (2 ^ 31) && leb (neg_part z) (2 ^ 31) then done z else fault

-- Behind the white space: a sign, and digits.
unfoldable pub signed : Bytes → Result ℤ
signed [] = done (pos 0)
signed (c ∷ s) =
    if c == b'-'
    then in_int (sub_ℕ 0 (spelled 0 s))
    else if c == b'+'
    then in_int (pos (spelled 0 s))
    else in_int (pos (spelled 0 (c ∷ s)))

unfoldable pub atoi : Bytes → Result ℤ
atoi s = signed (skip_space s)

unfoldable pub add_int : ℤ → ℤ → Result ℤ
add_int a b = in_int (a +ℤ b)

-- `%d`
unfoldable pub int_text : ℤ → Bytes
int_text (pos n) = decimal n
int_text (negsuc n) = b'-' ∷ decimal (suc n)

not_space : (c : ℕ) → b'0' ≤ c → is_space c ≡ false
unfolding is_space
not_space c h = ground arith

skip-digits : (c : ℕ) (s : Bytes) → b'0' ≤ c → skip_space (c ∷ s) ≡ c ∷ s
unfolding skip_space
skip-digits c s h = rw (not_space c h)

no_sign : (c : ℕ) → b'0' ≤ c → ((c == b'-') ≡ false) × ((c == b'+') ≡ false)
no_sign c h = ground arith

pub atoi_digits :
    (c : ℕ) (s : Bytes)
    → AllDigits (c ∷ s)
    → spelled 0 (c ∷ s) < 2 ^ 31
    → atoi (c ∷ s) ≡ done (pos (spelled 0 (c ∷ s)))
unfolding atoi signed in_int
atoi_digits c s h small =
    let (minus, plus) = no_sign c h.0.0 in
    rw (skip-digits c s h.0.0, minus, plus) (rw (lt→ltb (spelled 0 (c ∷ s)) (2 ^ 31) small))

-- Every number that is an `int` and not negative is read back from its print.
pub atoi-decimal : (n : ℕ) → n < 2 ^ 31 → atoi (decimal n) ≡ done (pos n)
atoi-decimal n small =
    let (d, s, e, all) = decimal_head n in
    let value : spelled 0 (d ∷ s) ≡ n =
      ap (spelled 0) (sym (append-nil (d ∷ s)) ∙ ap (λ t. t ++ []) (sym e))
      ∙ spelled-decimal n []
      ∙ unfold spelled in refl in
    rw e (atoi_digits d s all (omega (arith, value)) ∙ rw value)

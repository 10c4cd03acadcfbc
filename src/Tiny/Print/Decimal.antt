-- ===== src/Tiny/Print/Decimal.antt =====
-- The digits that `%d` prints: what number they spell, and how many they are.
use native.Mathlib.Nat.{pow-suc}
use multiplexing_proxy.Prelude.{
  ℕ, zero, suc, ◌+◌, ◌-◌, ◌*◌, ◌/◌, ◌%◌, ◌^◌, ◌≤◌, ◌<◌, ◌≡◌, refl, Bool, ◌&&◌, [], ◌∷◌, ◌++◌,
  length, Bool-cases, inl, inr, leb, ltb, if◌then◌else◌, arith,
}
use multiplexing_proxy.Memory.{Bytes, IsText}
use multiplexing_proxy.Tiny.Print.{decimal, decimal_onto}

abbrev pub is_digit : ℕ → Bool
is_digit c = leb b'0' c && leb c b'9'

-- The number that the digits at the front of a text spell, behind those of `n`.
unfoldable pub spelled : ℕ → Bytes → ℕ
spelled n [] = n
spelled n (c ∷ s) = if is_digit c then spelled (n * 10 + (c - b'0')) s else n

abbrev pub AllDigits : Bytes → Type 0
AllDigits [] = Unit
AllDigits (c ∷ s) = ((b'0' ≤ c) × (c ≤ b'9')) × AllDigits s

last_digit : (n : ℕ) (out : Bytes) → spelled (n / 10) ((b'0' + n % 10) ∷ out) ≡ spelled n out
unfolding spelled
last_digit n out = ground arith

spelled-decimal_onto :
    (fuel n : ℕ) (out : Bytes) → n < fuel → spelled 0 (decimal_onto fuel n out) ≡ spelled n out
unfolding decimal_onto
spelled-decimal_onto zero n out h = absurd (omega arith)
spelled-decimal_onto (suc fuel) n out h =
    ground (arith, last_digit n out, spelled-decimal_onto fuel (n / 10) ((b'0' + n % 10) ∷ out))

digits-append : (s t : Bytes) → AllDigits s → AllDigits t → AllDigits (s ++ t)
digits-append [] t hs ht = ht
digits-append (c ∷ s) t hs ht = (hs.0, digits-append s t hs.1 ht)

decimal_onto-AllDigits :
    (fuel n : ℕ) (out : Bytes) → AllDigits out → AllDigits (decimal_onto fuel n out)
unfolding decimal_onto
decimal_onto-AllDigits zero n out h = h
decimal_onto-AllDigits (suc fuel) n out h =
    ground (arith, decimal_onto-AllDigits fuel (n / 10) ((b'0' + n % 10) ∷ out))

tenth : (n k : ℕ) → n < 10 ^ suc (suc k) → n / 10 < 10 ^ suc k
tenth n k h = let m : n < 10 ^ suc k * 10 = rw pow-suc at h in omega arith

length-decimal_onto :
    (fuel n k : ℕ) (out : Bytes)
    → n < 10 ^ suc k
    → length (decimal_onto fuel n out) ≤ suc k + length out
unfolding decimal_onto
length-decimal_onto zero n k out h = omega arith
length-decimal_onto (suc fuel) n zero out h = let small : n < 10 = rw pow-suc at h in ground arith
length-decimal_onto (suc fuel) n (suc k) out h =
    ground (arith, length-decimal_onto fuel (n / 10) k ((b'0' + n % 10) ∷ out) (tenth n k h))

decimal_onto_append :
    (fuel n : ℕ) (out tail : Bytes)
    → decimal_onto fuel n out ++ tail ≡ decimal_onto fuel n (out ++ tail)
unfolding decimal_onto
decimal_onto_append zero n out tail = refl
decimal_onto_append (suc fuel) n out tail =
    ground (arith, decimal_onto_append fuel (n / 10) ((b'0' + n % 10) ∷ out) tail)

pub decimal-AllDigits : (n : ℕ) → AllDigits (decimal n)
unfolding decimal
decimal-AllDigits n = decimal_onto-AllDigits (n + 1) n [] tt

-- Printing a number and reading the digits back, whatever stands behind them, gives the number,
-- continued by that text.
pub spelled-decimal : (n : ℕ) (tail : Bytes) → spelled 0 (decimal n ++ tail) ≡ spelled n tail
unfolding decimal
spelled-decimal n tail =
    rw (decimal_onto_append (n + 1) n [] tail) (spelled-decimal_onto (n + 1) n tail (omega arith))

pub digits-IsText : (s : Bytes) → AllDigits s → IsText s
digits-IsText [] h = tt
digits-IsText (c ∷ s) h = (omega (arith, h.0), digits-IsText s h.1)

-- A number below 10 ^ (k + 1) has at most k + 1 digits.
pub length-decimal : (n k : ℕ) → n < 10 ^ suc k → length (decimal n) ≤ suc k
unfolding decimal
length-decimal n k h = omega (arith, length-decimal_onto (n + 1) n k [] h)

-- The first digit.
decimal_onto_head :
    (fuel n c : ℕ) (out : Bytes)
    → AllDigits (c ∷ out)
    → (d : ℕ) × (s : Bytes) × (decimal_onto fuel n (c ∷ out) ≡ d ∷ s) × AllDigits (d ∷ s)
unfolding decimal_onto
decimal_onto_head zero n c out h = (c, out, refl, h)
decimal_onto_head (suc fuel) n c out h = elim (Bool-cases (ltb n 10)) [
  | inl last ↦ (b'0' + n % 10, c ∷ out, rw last, (omega arith, h))
  | inr more ↦
      let (d, s, e, all) =
        decimal_onto_head fuel (n / 10) (b'0' + n % 10) (c ∷ out) (omega arith, h) in
      (d, s, rw more e, all)
]

pub decimal_head : (n : ℕ) → (d : ℕ) × (s : Bytes) × (decimal n ≡ d ∷ s) × AllDigits (d ∷ s)
unfolding decimal decimal_onto
decimal_head n =
    let e : n + 1 ≡ suc n = omega arith in
    elim (Bool-cases (ltb n 10)) [
      | inl last ↦ (b'0' + n % 10, [], rw (e, last), (omega arith, tt))
      | inr more ↦
          let (d, s, q, all) = decimal_onto_head n (n / 10) (b'0' + n % 10) [] (omega arith, tt) in
          (d, s, rw (e, more) q, all)
    ]

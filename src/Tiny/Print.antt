-- ===== src/Tiny/Print.antt =====
-- `sprintf` as proxylab-handout/tiny/tiny.c uses it: texts put together in a buffer of fixed size.
pub mod Decimal
pub mod Extend
use multiplexing_proxy.Prelude.{
  ℕ, zero, suc, ◌+◌, ◌/◌, ◌%◌, List, [], ◌∷◌, ◌++◌, length, Result, done, fault, ◌>>=◌, ◌<◌, ◌≡◌,
  ltb, if◌then◌else◌,
}
use multiplexing_proxy.Memory.{Bytes}

-- `%d` of a number that is not negative. The fuel `n + 1` is more than the digits of `n`.
unfoldable pub decimal_onto : ℕ → ℕ → Bytes → Bytes
decimal_onto zero n digits = digits
decimal_onto (suc fuel) n digits =
    let d = b'0' + n % 10 in
    let rest = decimal_onto fuel (n / 10) (d ∷ digits) in if ltb n 10 then d ∷ digits else rest

unfoldable pub decimal : ℕ → Bytes
unfolding decimal_onto
decimal n = decimal_onto (n + 1) n []

-- `MAXLINE` and `MAXBUF` of csapp.h.
abbrev pub maxbuf : ℕ
maxbuf = 8192

-- The text, if it and its NUL fit in the buffer.
unfoldable pub printed : Bytes → Result Bytes
printed text = if ltb (length text) maxbuf then done text else fault

-- What `sprintf(buf, "%s…", buf)` leaves in `buf`, from the string there and the text that the rest
-- of the format gives. The arguments overlap: C says nothing of such a call, so it is a parameter.
pub record Sprintf : Type 0 where
  pub extend : Bytes → Bytes → Result Bytes

-- What the programs rely on: the call appends, where the buffer has room. The sprintf of glibc keeps
-- to it for such programs, unless they are compiled with _FORTIFY_SOURCE.
pub record IsAppending (sp : Sprintf) : Type 0 where
  pub appends : (s t : Bytes) → length (s ++ t) < maxbuf → sp.extend s t ≡ done (s ++ t)

-- One such call after the other, each with its text.
unfoldable pub extend_all : Sprintf → Bytes → List Bytes → Result Bytes
extend_all sp s [] = done s
extend_all sp s (t ∷ ts) = sp.extend s t >>= λ longer. extend_all sp longer ts

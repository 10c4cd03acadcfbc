-- ===== src/Memory/Ends.antt =====
-- The functions of string.h end: they give a result, or a fault.
use multiplexing_proxy.Prelude.{
  ℕ, zero, suc, ◌+◌, [], ◌∷◌, length, ◌==◌, leb, Ends, Ends->>=, if-Ends, returns, faults,
}
use multiplexing_proxy.Memory.Strings.{
  Bytes, c_str, put, put_at, slice, terminated, strlen, strcpy, strcat,
}

pub c_str-Ends : (s : Bytes) → Ends (c_str s)
unfolding c_str
c_str-Ends [] = faults
c_str-Ends (c ∷ cs) = if-Ends (c == 0) returns (Ends->>= (c_str-Ends cs) λ s. returns)

pub put-Ends : (dst src : Bytes) → Ends (put dst src)
unfolding put
put-Ends dst [] = returns
put-Ends [] (c ∷ src) = faults
put-Ends (x ∷ dst) (c ∷ src) = Ends->>= (put-Ends dst src) λ d. returns

put_at-Ends : (dst : Bytes) (i : ℕ) (src : Bytes) → Ends (put_at dst i src)
unfolding put_at
put_at-Ends dst zero src = put-Ends dst src
put_at-Ends [] (suc i) src = faults
put_at-Ends (x ∷ dst) (suc i) src = Ends->>= (put_at-Ends dst i src) λ d. returns

pub slice-Ends : (src : Bytes) (i n : ℕ) → Ends (slice src i n)
unfolding slice
slice-Ends src i n = if-Ends (leb (i + n) (length src)) returns faults

pub strlen-Ends : (s : Bytes) → Ends (strlen s)
unfolding strlen
strlen-Ends s = Ends->>= (c_str-Ends s) λ t. returns

pub strcpy-Ends : (dst src : Bytes) → Ends (strcpy dst src)
unfolding strcpy
strcpy-Ends dst src = Ends->>= (c_str-Ends src) λ s. put-Ends dst (terminated s)

pub strcat-Ends : (dst src : Bytes) → Ends (strcat dst src)
unfolding strcat
strcat-Ends dst src =
    Ends->>= (c_str-Ends dst)
      λ d. Ends->>= (c_str-Ends src) λ s. put_at-Ends dst (length d) (terminated s)

-- ===== src/Memory/Strings.antt =====
-- A C object of type `char[n]` is a list of `n` bytes. Reading or writing outside it is a `fault`.
use multiplexing_proxy.Prelude.{
  ℕ, zero, suc, ◌+◌, Bool, true, false, ◌&&◌, ◌||◌, List, [], ◌∷◌, ◌++◌, length, take, drop,
  replicate, Result, done, fault, ◌>>=◌, ◌==◌, leb, if◌then◌else◌,
}

abbrev pub Bytes : Type 0
Bytes = List ℕ

-- The string that an object holds: its bytes before the first NUL. Without a NUL, a reader runs
-- past the end of the object.
unfoldable pub c_str : Bytes → Result Bytes
c_str [] = fault
c_str (c ∷ cs) = let rest = c_str cs >>= (λ s. done (c ∷ s)) in if c == 0 then done [] else rest

-- Store `src` at the front of the object.
unfoldable pub put : Bytes → Bytes → Result Bytes
put dst [] = done dst
put [] (c ∷ src) = fault
put (_ ∷ dst) (c ∷ src) = put dst src >>= (λ d. done (c ∷ d))

-- Store `src` from offset `i` on.
unfoldable pub put_at : Bytes → ℕ → Bytes → Result Bytes
put_at dst zero src = put dst src
put_at [] (suc i) src = fault
put_at (x ∷ dst) (suc i) src = put_at dst i src >>= (λ d. done (x ∷ d))

-- The `n` bytes from offset `i` on.
unfoldable pub slice : Bytes → ℕ → ℕ → Result Bytes
slice src i n = if leb (i + n) (length src) then done (take n (drop i src)) else fault

abbrev pub terminated : Bytes → Bytes
terminated s = s ++ 0 ∷ []

unfoldable pub strlen : Bytes → Result ℕ
unfolding c_str
strlen s = c_str s >>= (λ t. done (length t))

unfoldable pub strcpy : Bytes → Bytes → Result Bytes
unfolding c_str put
strcpy dst src = c_str src >>= (λ s. put dst (terminated s))

unfoldable pub strcat : Bytes → Bytes → Result Bytes
unfolding c_str put_at
strcat dst src = c_str dst >>= (λ d. c_str src >>= (λ s. put_at dst (length d) (terminated s)))

-- `strcmp(a, b) == 0`, on strings.
unfoldable pub equal : Bytes → Bytes → Bool
equal [] [] = true
equal (x ∷ xs) (y ∷ ys) = x == y && equal xs ys
equal _ _ = false

unfoldable pub starts_with : Bytes → Bytes → Bool
starts_with [] text = true
starts_with (x ∷ xs) [] = false
starts_with (x ∷ xs) (y ∷ ys) = x == y && starts_with xs ys

-- `strstr(text, word) != NULL`, on strings.
unfoldable pub contains : Bytes → Bytes → Bool
unfolding starts_with
contains [] word = starts_with word []
contains (c ∷ text) word = starts_with word (c ∷ text) || contains text word

-- `calloc(n, 1)`, or an object cleared by `memset`.
unfoldable pub calloc : ℕ → Bytes
calloc n = replicate n 0

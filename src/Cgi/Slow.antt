-- ===== src/Cgi/Slow.antt =====
-- `main` of proxylab-handout/tiny/cgi-bin/slow.c.
pub mod Length
use multiplexing_proxy.Prelude.{
  ℕ, zero, suc, ◌+◌, ◌/◌, ◌%◌, ◌==◌, if◌then◌else◌, List, [], ◌∷◌, ◌++◌, length, drop, Option, none,
  some, Result, done, fault, ◌>>=◌, ℤ, pos, negsuc,
}
use multiplexing_proxy.Memory.{Bytes, c_str, put_at}
use multiplexing_proxy.EventProxy.Wire.{codes}
use multiplexing_proxy.Tiny.Uri.{index}
use multiplexing_proxy.Cgi.Atoi.{add_int}
use multiplexing_proxy.Cgi.Adder.{cut_and, arguments, cgi_header}

-- What the program does: it sleeps, or writes its output so far.
pub data Act : Type 0 where
  sleeps : ℤ → Act
  writes : Bytes → Act

-- `q = strchr(p+1, '&'); if (q != NULL) *q = '\0';`
unfoldable pub cut_second_at : Bytes → Option ℕ → Result Bytes
cut_second_at right none = done right
cut_second_at right (some i) = put_at right i (0 ∷ [])

unfoldable pub cut_second : Bytes → Result Bytes
unfolding cut_second_at
cut_second right = c_str right >>= λ text. cut_second_at right (index text b'&')

-- The loop: the bytes from index `i` on, `count` of them, and the sleeps on the way. `n2` is the
-- bound, and `n1` the time.
unfoldable pub letters : ℤ → ℕ → ℕ → ℕ → Bytes × List Act
letters n1 n2 i zero = ([], [])
letters n1 n2 i (suc count) =
    let (text, acts) = letters n1 n2 (i + 1) count in
    ((b'a' + i % 26) ∷ text, if i == n2 / 2 then sleeps n1 ∷ acts else acts)

-- `content = malloc(n2 + 1)` and what follows; `content[n2] = '\0'` for a negative `n2` lies
-- outside.
unfoldable pub fill_and_send : ℤ → ℤ → Result (List Act)
fill_and_send n1 (negsuc n) = fault
fill_and_send n1 (pos n2) = add_int (pos n2) (pos 1) >>= λ room.
    let (content, acts) = letters n1 n2 0 n2 in
    done (acts ++ writes (cgi_header (length content)) ∷ sleeps n1 ∷ writes content ∷ [])

unfoldable pub slow : Option Bytes → Bytes → Bytes → Result (List Act)
slow none arg1 arg2 = fill_and_send (pos 0) (pos 0)
slow (some query) arg1 arg2 = do
  (cut, next) ← cut_and query
  right ← cut_second (drop next cut)
  (n1, n2) ← arguments cut right arg1 arg2
  fill_and_send n1 n2

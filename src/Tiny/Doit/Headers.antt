-- ===== src/Tiny/Doit/Headers.antt =====
-- How far `read_requesthdrs` reads.
use multiplexing_proxy.Prelude.{
  ℕ, zero, suc, ◌≡◌, refl, false, List, [], ◌∷◌, ◌++◌, map, replicate, done, starved,
}
use multiplexing_proxy.Memory.{Bytes, equal}
use multiplexing_proxy.EventProxy.Wire.{crlf}
use multiplexing_proxy.Tiny.Doit.{HeaderLine, line, at_end, read_requesthdrs}

-- No line is "\r\n".
abbrev pub NoBlank : List Bytes → Type 0
NoBlank [] = Unit
NoBlank (l ∷ lines) = (equal l crlf ≡ false) × NoBlank lines

read_requesthdrs_blank :
    (buf : Bytes) (lines : List Bytes) (later : List HeaderLine)
    → NoBlank lines
    → read_requesthdrs buf (map line lines ++ line crlf ∷ later) ≡ done later
unfolding read_requesthdrs equal
read_requesthdrs_blank buf [] later h = refl
read_requesthdrs_blank buf (l ∷ lines) later h = rw h.0 (read_requesthdrs_blank l lines later h.1)

read_requesthdrs_closed :
    (buf : Bytes) (n : ℕ)
    → equal buf crlf ≡ false
    → read_requesthdrs buf (replicate n at_end) ≡ starved
unfolding read_requesthdrs
read_requesthdrs_closed buf zero h = refl
read_requesthdrs_closed buf (suc n) h = rw h (read_requesthdrs_closed buf n h)

read_requesthdrs_cut :
    (buf : Bytes) (lines : List Bytes) (n : ℕ)
    → equal buf crlf ≡ false
    → NoBlank lines
    → read_requesthdrs buf (map line lines ++ replicate n at_end) ≡ starved
unfolding read_requesthdrs
read_requesthdrs_cut buf [] n b h = read_requesthdrs_closed buf n b
read_requesthdrs_cut buf (l ∷ lines) n b h = rw h.0 (read_requesthdrs_cut l lines n h.0 h.1)

-- `read_requesthdrs` reads the header lines up to and with the first "\r\n", and nothing behind it.
-- If the client closes before that line, and the text left in `buf` is not "\r\n" either, it does
-- not return, however often (`n` times) it reads the end of the stream.
pub read_requesthdrs_lem :
    (buf : Bytes) (lines : List Bytes) (later : List HeaderLine) (n : ℕ)
    → equal buf crlf ≡ false
    → NoBlank lines
    → (read_requesthdrs buf (map line lines ++ line crlf ∷ later) ≡ done later)
      × (read_requesthdrs buf (map line lines ++ replicate n at_end) ≡ starved)
read_requesthdrs_lem buf lines later n b h =
    (read_requesthdrs_blank buf lines later h, read_requesthdrs_cut buf lines n b h)

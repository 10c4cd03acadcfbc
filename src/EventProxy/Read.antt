-- ===== src/EventProxy/Read.antt =====
-- The read loops of `clread` and `srvread` of proxylab-handout/proxy.c, over the answers of `read`.
pub mod Loops
pub mod Stale
pub mod Pieces
use multiplexing_proxy.Prelude.{
  ℕ, zero, suc, Bool, true, false, ◌||◌, List, [], ◌∷◌, Result, done, starved, ◌>>=◌, ◌==◌,
  if◌then◌else◌, add64, sub64, length,
}
use multiplexing_proxy.Memory.{Bytes, put, strcat, c_str, contains}
use multiplexing_proxy.Platform.{Platform}

abbrev pub bufmax : ℕ
bufmax = 102400

-- `MAXBUF` of csapp.h.
abbrev pub maxbuf : ℕ
maxbuf = 8192

-- "\r\n\r\n"
abbrev pub blank_line : Bytes
blank_line = 13 ∷ 10 ∷ 13 ∷ 10 ∷ []

-- What one `read` answers: the bytes that it stored (none at the end of the stream), or -1 with
-- `errno`.
pub data Read : Type 0 where
  got : Bytes → Read
  failed : ℕ → Read

-- How a read loop is left: at the end of the message, because nothing is there for now or `nleft`
-- is 0, or by `return true` on another error.
pub data Leaving : Type 0 where
  ended paused broken : Leaving

pub record ReadEnd : Type 0 where
  pub text : Bytes
  pub passed : ℕ
  pub leaving : Leaving

abbrev paused_at : Bytes → ℕ → ReadEnd
paused_at text passed = record { text = text; passed = passed; leaving = Leaving.paused }

-- The end of a round: `strcat` of all of `tempBuf`, which `read` does not terminate, then the test
-- for a blank line.
unfoldable pub after_read : Bytes → Bytes → Result (Bytes × Bool)
after_read text temp = do
  longer ← strcat text temp
  chunk ← c_str temp
  done (longer, contains chunk blank_line)

-- The loop, on the text so far (`URL` or `dataBuf`), `tempBuf`, `nleft` and `totalBytesPassed`.
-- EINTR sets `nread` to 0 and runs the rest of the round on the `tempBuf` of the round before.
unfoldable pub read_loop : Platform → Bytes → Bytes → ℕ → ℕ → List Read → Result ReadEnd
unfolding after_read
read_loop os text temp zero passed answers = done (paused_at text passed)
read_loop os text temp (suc nleft) passed [] = starved
read_loop os text temp (suc nleft) passed (got [] ∷ answers) =
    done (record { text = text; passed = passed; leaving = Leaving.ended })
read_loop os text temp (suc nleft) passed (got (c ∷ cs) ∷ answers) = do
  temp' ← put temp (c ∷ cs)
  (text', found) ← after_read text temp'
  let passed' = add64 passed (length (c ∷ cs))
  let more = read_loop os text' temp' (sub64 (suc nleft) (length (c ∷ cs))) passed' answers
  if found then done (record { text = text'; passed = passed'; leaving = Leaving.ended }) else more
read_loop os text temp (suc nleft) passed (failed e ∷ answers) =
    let again = after_read text temp >>= λ r.
    let more = read_loop os r.0 temp (suc nleft) passed answers in
    if r.1 then done (record { text = r.0; passed = passed; leaving = Leaving.ended }) else more in
    if e == os.eintr
    then again
    else if e == os.ewouldblock || e == os.eagain
    then done (paused_at text passed)
    else done (record { text = text; passed = passed; leaving = Leaving.broken })

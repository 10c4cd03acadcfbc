-- ===== src/EventProxy/Srvread.antt =====
-- `srvread` of proxylab-handout/proxy.c: reading the response, and turning to the client. The
-- caching code at its end is commented out there.
use mathlib.Core.List.{append-nil}
use multiplexing_proxy.Prelude.{
  ℕ, suc, ◌-◌, ◌≤◌, ◌<◌, ◌≡◌, true, false, List, [], ◌∷◌, length, drop, Result, done, fault, ◌>>=◌,
  ℤ, minus_one, is_negative, arith, ap, subst, add64,
}
use multiplexing_proxy.Memory.{Bytes, calloc, c_str, contains, Holds, IsText, calloc-Holds}
use multiplexing_proxy.Platform.{Platform}
use multiplexing_proxy.EventProxy.Action.{
  Callback, Pointer, null, wild, block, EventAction, writing, Call, Handled,
}
use multiplexing_proxy.EventProxy.Read.{
  Read, got, Leaving, ended, paused, broken, ReadEnd, read_loop, blank_line, bufmax, maxbuf,
}
use multiplexing_proxy.EventProxy.Read.Loops.{read_loop_last, read_loop_overflow}

-- `if (!p) p = calloc(BUFMAX, sizeof(char));`
unfoldable pub or_calloc : Pointer → Result Bytes
or_calloc null = done (calloc bufmax)
or_calloc wild = fault
or_calloc (block b) = done b

-- `srvread` behind its loop; `added` is what `epoll_ctl` answers.
unfoldable pub srvread_outcome : EventAction → ℤ → ReadEnd → Leaving → Handled
srvread_outcome a added r ended = record {
  action = record a {
    serverfd = minus_one;
    total_data_size = r.passed;
    total_bytes_passed = 0;
    data_buf = block r.text;
    callback = Callback.clwrite;
  };
  ends = is_negative added;
  calls = Call.close a.serverfd ∷ Call.epoll_add a.clientfd writing ∷ [];
  spawned = [];
  sent = [];
}
srvread_outcome a added r paused = record {
  action = record a { total_bytes_passed = r.passed; data_buf = block r.text };
  ends = false;
  calls = [];
  spawned = [];
  sent = [];
}
srvread_outcome a added r broken = record {
  action = record a { total_bytes_passed = r.passed; data_buf = block r.text };
  ends = true;
  calls = [];
  spawned = [];
  sent = [];
}

-- `temp` is `tempBuf[MAXBUF]`, with what the stack holds. The reads are offered BUFMAX bytes.
unfoldable pub srvread : Platform → Bytes → List Read → ℤ → EventAction → Result Handled
unfolding or_calloc
srvread os temp reads added a = do
  buf ← or_calloc a.data_buf
  r ← read_loop os buf temp bufmax a.total_bytes_passed reads
  done (srvread_outcome a added r r.leaving)

-- For an action without data: if the first read of a response, shorter than BUFMAX and without a
-- NUL byte, shows a blank line, and tempBuf holds a NUL behind it, then srvread takes that read
-- for the whole response, whatever would come after it: it stores exactly those bytes as the
-- response, with their number as its size, closes the server's descriptor, and turns to writing to
-- the client. It ends the connection exactly when the client cannot be registered.
pub srvread_first_read :
    (os : Platform) (temp : Bytes) (c : ℕ) (cs : Bytes) (later : List Read) (added : ℤ)
    (a : EventAction)
    → a.data_buf ≡ null
    → a.total_bytes_passed ≡ 0
    → IsText (c ∷ cs)
    → length (c ∷ cs) ≤ length temp
    → length (c ∷ cs) < bufmax
    → c_str (drop (length (c ∷ cs)) temp) ≡ done []
    → contains (c ∷ cs) blank_line ≡ true
    → (r : Bytes) × (srvread os temp (got (c ∷ cs) ∷ later) added a
        ≡ done (record {
          action = record a {
            serverfd = minus_one;
            total_data_size = length (c ∷ cs);
            total_bytes_passed = 0;
            data_buf = block r;
            callback = Callback.clwrite;
          };
          ends = is_negative added;
          calls = Call.close a.serverfd ∷ Call.epoll_add a.clientfd writing ∷ [];
          spawned = [];
          sent = [];
        }))
      × Holds r bufmax (c ∷ cs)
unfolding srvread srvread_outcome
srvread_first_read os temp c cs later added a empty start ok room small q found =
    let (r, ran, held) =
      read_loop_last os (calloc bufmax) temp (bufmax - 1) 0 c cs later {tail = []}
        (calloc-Holds bufmax (omega arith)) ok room q (omega (arith, ap length (append-nil cs)))
        (rw (append-nil cs) found) in
    (
      r,
      rw (empty, start) (rw ran (rw counted)),
      subst (λ s. Holds r bufmax (c ∷ s)) (append-nil cs) held,
    )
  where
    counted : add64 0 (suc (length cs)) ≡ suc (length cs)
    counted = omega arith

-- For an action without data: `read` is offered BUFMAX bytes, and `tempBuf` has MAXBUF: a
-- response of which more than MAXBUF bytes are there at the first read is stored behind the end
-- of `tempBuf`.
pub srvread_overflow :
    (os : Platform) (temp bs : Bytes) (later : List Read) (added : ℤ) (a : EventAction)
    → a.data_buf ≡ null
    → length temp ≡ maxbuf
    → maxbuf < length bs
    → length bs ≤ bufmax
    → srvread os temp (got bs ∷ later) added a ≡ fault
unfolding srvread
srvread_overflow os temp bs later added a empty size over offered = rw empty (
    rw (
      read_loop_overflow os (calloc bufmax) temp (bufmax - 1) a.total_bytes_passed bs later
        (omega arith)))

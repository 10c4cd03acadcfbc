-- ===== src/EventProxy/Write/Loops.antt =====
-- What the write loops send, in terms of what the system accepts.
use mathlib.Core.List.{append_assoc, append-nil}
use native.Mathlib.Nat.{add_assoc, add-zero}
use multiplexing_proxy.Prelude.{
  ℕ, zero, suc, ◌+◌, ◌^◌, ◌≤◌, ◌<◌, ◌≡◌, ap, ◌∙◌, List, [], ◌∷◌, ◌++◌, length, take, drop, done,
  arith, add64, take-add, drop-add,
}
use multiplexing_proxy.Memory.{Bytes, slice}
use multiplexing_proxy.EventProxy.Write.{Write, wrote, failed, WriteEnd, server_loop, client_loop}

-- The bytes that the system takes before it answers 0 or an error.
abbrev pub accepted : List Write → ℕ
accepted [] = 0
accepted (wrote zero ∷ ws) = 0
accepted (wrote (suc n) ∷ ws) = suc n + accepted ws
accepted (failed e ∷ ws) = 0

-- `errno` after these answers.
abbrev pub last_errno : ℕ → List Write → ℕ
last_errno errno [] = errno
last_errno errno (wrote zero ∷ ws) = errno
last_errno errno (wrote (suc n) ∷ ws) = last_errno errno ws
last_errno errno (failed e ∷ ws) = e

-- The system answers 0 or an error at some point.
abbrev pub Stops : List Write → Type 0
Stops [] = ⊥
Stops (wrote zero ∷ ws) = Unit
Stops (wrote (suc n) ∷ ws) = Stops ws
Stops (failed e ∷ ws) = Unit

-- It answers 0, and never an error before that.
abbrev pub Drains : List Write → Type 0
Drains [] = ⊥
Drains (wrote zero ∷ ws) = Unit
Drains (wrote (suc n) ∷ ws) = Drains ws
Drains (failed e ∷ ws) = ⊥

pub slice-done :
    (buf : Bytes) (i n : ℕ) → i + n ≤ length buf → slice buf i n ≡ done (take n (drop i buf))
unfolding slice
slice-done buf i n h = ground arith

-- Two runs of bytes taken one after the other are one run.
pub take-drop-add :
    (buf : Bytes) (i m n : ℕ)
    → take (m + n) (drop i buf) ≡ take m (drop i buf) ++ take n (drop (i + m) buf)
take-drop-add buf i m n = rw (drop-add i m buf) (take-add m n (drop i buf))

no_wrap : (i n : ℕ) → i + n < 2 ^ 64 → add64 i n ≡ i + n
no_wrap i n h = omega arith

-- The end of a loop that sends what the system accepts.
abbrev pub sends : Bytes → ℕ → Bytes → ℕ → List Write → WriteEnd
sends buf passed sent errno ws = record {
  passed = passed + accepted ws;
  sent = sent ++ take (accepted ws) (drop passed buf);
  errno = last_errno errno ws;
}

sends_none :
    (buf : Bytes) (passed : ℕ) (sent : Bytes) (errno : ℕ)
    → ◌≡◌ {A = WriteEnd}
        (record { passed = passed; sent = sent; errno = errno })
        (record { passed = passed + 0; sent = sent ++ take 0 (drop passed buf); errno = errno })
sends_none buf passed sent errno = rw (append-nil, add-zero)

sends_more :
    (buf : Bytes) (passed : ℕ) (sent : Bytes) (errno n : ℕ) (ws : List Write)
    → sends buf (passed + suc n) (sent ++ take (suc n) (drop passed buf)) errno ws
      ≡ sends buf passed sent errno (wrote (suc n) ∷ ws)
sends_more buf passed sent errno n ws =
    rw (take-drop-add buf passed (suc n) (accepted ws), add_assoc, append_assoc)

pub server_loop_lem :
    (buf : Bytes) (passed : ℕ) (sent : Bytes) (errno : ℕ) (ws : List Write)
    → Stops ws
    → passed + accepted ws ≤ length buf
    → length buf < 2 ^ 64
    → server_loop buf passed sent errno ws ≡ done (sends buf passed sent errno ws)
unfolding server_loop
server_loop_lem buf passed sent errno [] stops fits small = absurd stops
server_loop_lem buf passed sent errno (wrote zero ∷ ws) stops fits small =
    ap done (sends_none buf passed sent errno)
server_loop_lem buf passed sent errno (wrote (suc n) ∷ ws) stops fits small =
    rw (slice-done buf passed (suc n) (omega arith)) (
      rw (no_wrap passed (suc n) (omega arith)) (
        server_loop_lem buf (passed + suc n) _ errno ws stops (omega arith) small
        ∙ ap done (sends_more buf passed sent errno n ws)))
server_loop_lem buf passed sent errno (failed e ∷ ws) stops fits small =
    ap done (sends_none buf passed sent e)

pub client_loop_lem :
    (buf : Bytes) (passed : ℕ) (sent : Bytes) (errno : ℕ) (ws : List Write)
    → Drains ws
    → passed + accepted ws ≤ length buf
    → length buf < 2 ^ 64
    → client_loop buf passed sent errno ws ≡ done (sends buf passed sent errno ws)
unfolding client_loop
client_loop_lem buf passed sent errno [] drains fits small = absurd drains
client_loop_lem buf passed sent errno (wrote zero ∷ ws) drains fits small =
    ap done (sends_none buf passed sent errno)
client_loop_lem buf passed sent errno (wrote (suc n) ∷ ws) drains fits small =
    rw (slice-done buf passed (suc n) (omega arith)) (
      rw (no_wrap passed (suc n) (omega arith)) (
        client_loop_lem buf (passed + suc n) _ errno ws drains (omega arith) small
        ∙ ap done (sends_more buf passed sent errno n ws)))
client_loop_lem buf passed sent errno (failed e ∷ ws) drains fits small = absurd drains

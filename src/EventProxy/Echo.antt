-- ===== src/EventProxy/Echo.antt =====
-- `handle_client` of proxylab-handout/proxy.c, which sends back what it receives. Nothing calls it.
use multiplexing_proxy.Prelude.{
  ℕ, ◌≡◌, ◌∙◌, ◌||◌, List, [], ◌∷◌, ◌++◌, take, Result, done, starved, ◌==◌, if◌then◌else◌, map,
}
use mathlib.Core.List.{append_assoc, append-nil}
use multiplexing_proxy.Memory.{Bytes}
use multiplexing_proxy.Platform.{Platform}

-- What one `recv` answers: a byte and more, and how many of them the `send` behind it takes (its
-- result is not looked at); the end of the stream; or -1 with `errno`.
pub data Received : Type 0 where
  got : (c : ℕ) (cs : Bytes) (taken : ℕ) → Received
  at_end : Received
  failed : ℕ → Received

-- The loop and the tests behind it: what the function returns, and the bytes that went out.
unfoldable pub handle_client : Platform → Bytes → List Received → Result (ℕ × Bytes)
handle_client os sent [] = starved
handle_client os sent (got c cs taken ∷ answers) =
    handle_client os (sent ++ take taken (c ∷ cs)) answers
handle_client os sent (at_end ∷ answers) = done (0, sent)
handle_client os sent (failed e ∷ answers) =
    done (if e == os.ewouldblock || e == os.eagain then 1 else 0, sent)

-- Messages, each with what of it is taken.
pub record Message : Type 0 where
  pub first : ℕ
  pub others : Bytes
  pub taken : ℕ

abbrev pub arrives : Message → Received
arrives m = got m.first m.others m.taken

abbrev pub echoed : List Message → Bytes
echoed [] = []
echoed (m ∷ ms) = take m.taken (m.first ∷ m.others) ++ echoed ms

abbrev pub stops : Platform → Received → ℕ
stops os (got c cs taken) = 0
stops os at_end = 0
stops os (failed e) = if e == os.ewouldblock || e == os.eagain then 1 else 0

abbrev pub IsLast : Received → Type 0
IsLast (got c cs taken) = ⊥
IsLast at_end = Unit
IsLast (failed e) = Unit

echo_loop :
    (os : Platform) (sent : Bytes) (ms : List Message) (last : Received) (later : List Received)
    → IsLast last
    → handle_client os sent (map arrives ms ++ last ∷ later)
      ≡ done (stops os last, sent ++ echoed ms)
unfolding handle_client
echo_loop os sent [] (got c cs taken) later h = absurd h
echo_loop os sent [] at_end later h = rw (append-nil sent)
echo_loop os sent [] (failed e) later h = rw (append-nil sent)
echo_loop os sent (m ∷ ms) last later h =
    echo_loop os (sent ++ take m.taken (m.first ∷ m.others)) ms last later h ∙ rw append_assoc

-- After any messages and then the end of the stream or an error, `handle_client` returns; it has
-- sent back, in order, what `send` took of each message, and looked at nothing later; it returns 1
-- if the stop is EWOULDBLOCK or EAGAIN, and otherwise 0.
pub handle_client_lem :
    (os : Platform) (ms : List Message) (last : Received) (later : List Received)
    → IsLast last
    → handle_client os [] (map arrives ms ++ last ∷ later) ≡ done (stops os last, echoed ms)
handle_client_lem os ms last later h = echo_loop os [] ms last later h

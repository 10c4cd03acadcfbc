-- ===== src/ThreadProxy/Worker/Genuine.antt =====
-- What a client gets from a cache with a history.
use multiplexing_proxy.Prelude.{ℕ, ◌≡◌, List, Option, none, some, done, Ensures-value}
use multiplexing_proxy.Memory.{Bytes}
use multiplexing_proxy.ThreadProxy.Store.{Entry, Store, search}
use multiplexing_proxy.ThreadProxy.Store.History.{
  Op, operate_all, empty_store, Stored, operate_all-Ensures, search-Ensures, replicate-AllKnown,
}
use multiplexing_proxy.ThreadProxy.Worker.{Round, deliver}

-- After any searches and stores, of any threads and in any order, on a cache that began empty and
-- had no fault: where a search finds something, the client gets, byte for byte, a response that
-- one of the stores was given for this very request, and no server is asked.
pub deliver_genuine :
    (n : ℕ) (ops : List Op) (env : Round) (target : Bytes × Bytes × Bytes) (wanted wire : Bytes)
    {st : Store} {size : ℕ} {copy : Bytes} {entries : List (Option Entry)}
    → operate_all (empty_store n) ops ≡ done st
    → search wanted env.buf2 env.now st.entries ≡ done (some (size, copy), entries)
    → (text : Bytes) × Stored ops wanted text
      × (deliver env (record st { entries = entries }) target wire (some (size, copy))
          ≡ done (record { sent = text; server = none; cache = record st { entries = entries } }))
unfolding deliver
deliver_genuine n ops env target wanted wire {st = st} ran found =
    let known =
      Ensures-value
        (operate_all-Ensures (Stored ops) ops (empty_store n) (λ w t s. s)
          (replicate-AllKnown (Stored ops) n))
        ran in
    let ((text, stored, whole), _) =
      Ensures-value (search-Ensures (Stored ops) wanted env.buf2 env.now st.entries known) found in
    (text, stored, rw whole)

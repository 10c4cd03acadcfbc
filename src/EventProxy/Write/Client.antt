-- ===== src/EventProxy/Write/Client.antt =====
-- `clwrite`: sending the response to the client.
use multiplexing_proxy.Prelude.{
  ℕ, suc, ◌+◌, ◌-◌, ◌^◌, ◌≤◌, ◌<◌, ◌≡◌, refl, List, [], ◌∷◌, ◌++◌, length, take, drop, done, arith,
  true, not, ◌&&◌, ◌||◌, ◌==◌, add64,
}
use multiplexing_proxy.Memory.{Bytes}
use multiplexing_proxy.Platform.{Platform}
use multiplexing_proxy.EventProxy.Action.{EventAction, Handled}
use multiplexing_proxy.EventProxy.Write.{Write, wrote, failed, client_loop, clwrite, client_outcome}
use multiplexing_proxy.EventProxy.Write.Server.{IsSending}
use multiplexing_proxy.EventProxy.Write.Loops.{
  accepted, last_errno, Drains, client_loop_lem, slice-done,
}

module _ (os : Platform) (errno : ℕ) (writes : List Write) (a : EventAction) {buf : Bytes} where
  -- For an action in the middle of sending: if `write` answers no error before it answers 0, and
  -- takes no more than it is offered, then `clwrite` returns, has sent the next bytes of the
  -- response that the system accepted, and has advanced the counter by as many; it ends the
  -- connection when the response is all out, and otherwise exactly when the old `errno` is
  -- neither EWOULDBLOCK nor EAGAIN. It makes no other call.
  pub clwrite_sends :
      IsSending a buf
      → Drains writes
      → a.total_bytes_passed + accepted writes ≤ a.total_data_size
      → clwrite os errno writes a
        ≡ done (record {
          action = record a { total_bytes_passed = a.total_bytes_passed + accepted writes };
          ends =
              a.total_bytes_passed + accepted writes == a.total_data_size
              || (not (last_errno errno writes == os.ewouldblock)
                  && not (last_errno errno writes == os.eagain));
          calls = [];
          spawned = [];
          sent = take (accepted writes) (drop a.total_bytes_passed buf);
        })
  unfolding clwrite client_outcome
  clwrite_sends s drains fits =
      rw s.holds
        (rw (client_loop_lem buf a.total_bytes_passed [] errno writes drains (omega arith) s.small))

-- The loop on a short write, an error, the rest from one byte back, and 0.
client_loop_back :
    (buf : Bytes) (errno e n m : ℕ)
    → n + suc m ≤ length buf
    → length buf < 2 ^ 64
    → client_loop buf 0 [] errno (wrote (suc n) ∷ failed e ∷ wrote (suc m) ∷ wrote 0 ∷ [])
      ≡ done (record {
        passed = n + suc m;
        sent = take (suc n) buf ++ take (suc m) (drop n buf);
        errno = e;
      })
unfolding client_loop
client_loop_back buf errno e n m fits small =
    rw (slice-done buf 0 (suc n) (omega arith)) (rw (back, slice-done buf n (suc m) fits) (rw on))
  where
    back : add64 (add64 0 (suc n)) (2 ^ 64 - 1) ≡ n
    back = omega arith

    on : add64 n (suc m) ≡ n + suc m
    on = omega arith

-- For an action that has sent nothing yet: after a short write and one error the loop does not
-- stop; -1 counts as 2^64 - 1 bytes, the counter moves back by one, and the last byte that was
-- sent goes out once more, if then the system takes all the rest.
pub clwrite_resends :
    (os : Platform) (errno e n m : ℕ) (a : EventAction) {buf : Bytes}
    → IsSending a buf
    → a.total_bytes_passed ≡ 0
    → n + suc m ≡ a.total_data_size
    → (h : Handled) × (clwrite os errno (wrote (suc n) ∷ failed e ∷ wrote (suc m) ∷ wrote 0 ∷ []) a
        ≡ done h)
      × (h.sent ≡ take (suc n) buf ++ take (suc m) (drop n buf))
      × (h.action.total_bytes_passed ≡ a.total_data_size)
      × (h.ends ≡ true)
unfolding clwrite client_outcome
clwrite_resends os errno e n m a {buf} s start whole = (
  client_outcome os a (record {
    passed = n + suc m;
    sent = take (suc n) buf ++ take (suc m) (drop n buf);
    errno = e;
  }),
  rw (s.holds, start) (rw (client_loop_back buf errno e n m (omega arith) s.small)),
  refl,
  whole,
  ground arith,
)

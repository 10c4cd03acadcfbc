-- ===== src/EventProxy/MainLoop/Parties.antt =====
-- What the client, the server and the system do in an exchange, and what is written then.
use native.Mathlib.Nat.{zero-add}
use multiplexing_proxy.Prelude.{
  ℕ, ◌^◌, ◌≤◌, ◌<◌, ◌≡◌, ap, ◌∙◌, true, false, List, [], ◌∷◌, length, take, drop, done, ◌==◌,
  is_negative, is_zero, arith, length-append, take-length-append,
}
use multiplexing_proxy.Memory.{Bytes, c_str, contains, IsText, Holds, c_str-split}
use multiplexing_proxy.Platform.{Platform}
use multiplexing_proxy.EventProxy.Action.{Callback, null, block, EventAction, reading, Call}
use multiplexing_proxy.EventProxy.Read.{Read, got, blank_line, bufmax}
use multiplexing_proxy.EventProxy.Write.{ServerAnswers, srvwrite, server_outcome, clwrite}
use multiplexing_proxy.EventProxy.Write.Loops.{accepted, Stops, Drains}
use multiplexing_proxy.EventProxy.Write.Server.{IsSending, srvwrite_outcome, done_all}
use multiplexing_proxy.EventProxy.Write.Client.{clwrite_sends}
use multiplexing_proxy.EventProxy.MainLoop.{Answers}

-- The client's descriptor delivers all of the request in one read.
pub record Delivers (ans : Answers) (text : Bytes) (more : List Read) : Type 0 where
  pub reads : ans.client.reads ≡ got text ∷ more
  pub room : length text ≤ length ans.stack.temp
  pub nul : c_str (drop (length text) ans.stack.temp) ≡ done []

-- The server takes `n` bytes, and both calls of `epoll_ctl` work.
pub record TakesRequest (env : ServerAnswers) (n : ℕ) : Type 0 where
  pub stops : Stops env.writes
  pub all : accepted env.writes ≡ n
  pub deleted : is_zero env.deleted ≡ true
  pub added : is_zero env.added ≡ true

-- The server's descriptor delivers a response in one read, and the client can be registered.
pub record Responds (ans : Answers) (c : ℕ) (cs : Bytes) (later : List Read) : Type 0 where
  pub reads : ans.reads ≡ got (c ∷ cs) ∷ later
  pub text : IsText (c ∷ cs)
  pub room : length (c ∷ cs) ≤ length ans.temp
  pub nul : c_str (drop (length (c ∷ cs)) ans.temp) ≡ done []
  pub fits : length (c ∷ cs) < bufmax
  pub whole : contains (c ∷ cs) blank_line ≡ true
  pub registered : is_negative ans.added ≡ false

-- The client takes `n` bytes, without an error.
pub record TakesResponse (ans : Answers) (n : ℕ) : Type 0 where
  pub drains : Drains ans.writes
  pub all : accepted ans.writes ≡ n

-- The part of a block that a string fills.
pub take-Holds :
    (buf : Bytes) {n : ℕ} (s : Bytes) → Holds buf n s → take (length s) (drop 0 buf) ≡ s
take-Holds buf s held =
    let (rest, split) = c_str-split buf held.text in rw split (take-length-append s (0 ∷ rest))

pub length-Holds : (buf : Bytes) {n : ℕ} {s : Bytes} → Holds buf n s → length s ≤ length buf
length-Holds buf {n} {s} held =
    let (rest, split) = c_str-split buf held.text in
    omega (arith, ap length split, length-append s (0 ∷ rest))

-- `srvwrite` where the whole request goes out.
pub srvwrite_all :
    (os : Platform) (env : ServerAnswers) (a : EventAction) (buf text : Bytes) {n : ℕ}
    → a.data_buf ≡ block buf
    → a.total_bytes_passed ≡ 0
    → a.total_data_size ≡ length text
    → Holds buf n text
    → length buf < 2 ^ 64
    → TakesRequest env (length text)
    → srvwrite os env a
      ≡ done (record {
        action = record a {
          data_buf = null;
          total_data_size = 0;
          total_bytes_passed = 0;
          callback = Callback.srvread;
        };
        ends = false;
        calls = Call.free buf ∷ Call.epoll_del a.serverfd ∷ Call.epoll_add a.serverfd reading ∷ [];
        spawned = [];
        sent = text;
      })
unfolding server_outcome
srvwrite_all os env a buf text stands start size held small h =
    let sending : IsSending a buf = record {
      holds = stands;
      started = omega arith;
      inside = omega (arith, length-Holds buf held);
      small = small;
    } in
    srvwrite_outcome os env a sending (record { stops = h.stops; fits = omega (arith, h.all) })
    ∙ rw
        (done_all os env a sending (record { stops = h.stops; fits = omega (arith, h.all) })
          (omega (arith, h.all)))
        (rw (h.deleted, h.added) (simp (start, h.all, take-Holds buf text held)))

-- `clwrite` where the whole response goes out.
pub clwrite_all :
    (os : Platform) (ans : Answers) (a : EventAction) (buf text : Bytes) {n : ℕ}
    → a.data_buf ≡ block buf
    → a.total_bytes_passed ≡ 0
    → a.total_data_size ≡ length text
    → Holds buf n text
    → length buf < 2 ^ 64
    → TakesResponse ans (length text)
    → clwrite os ans.errno ans.writes a
      ≡ done (record {
        action = record a { total_bytes_passed = length text };
        ends = true;
        calls = [];
        spawned = [];
        sent = text;
      })
clwrite_all os ans a buf text stands start size held small h =
    clwrite_sends os ans.errno ans.writes a
      (record {
        holds = stands;
        started = omega arith;
        inside = omega (arith, length-Holds buf held);
        small = small;
      })
      h.drains (omega (arith, h.all))
    ∙ simp (start, h.all, size, take-Holds buf text held, zero-add, same (length text))
  where
    same : (n : ℕ) → (n == n) ≡ true
    same n = ground arith

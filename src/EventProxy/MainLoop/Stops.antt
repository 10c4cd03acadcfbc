-- ===== src/EventProxy/MainLoop/Stops.antt =====
-- The answers at which the loops of the handlers stop.
use multiplexing_proxy.Prelude.{
  ℕ, zero, suc, ◌-◌, ◌^◌, true, false, ◌||◌, List, [], ◌∷◌, ◌++◌, length, ◌==◌, if◌then◌else◌,
  add64, sub64, Bool-cases, inl, inr, subst, pos, >>=-assoc, Ends, returns, faults, Ends->>=,
  if-Ends,
}
use multiplexing_proxy.Memory.{Bytes, c_str-Ends, put-Ends, slice-Ends, strcat-Ends}
use multiplexing_proxy.Platform.{Platform}
use multiplexing_proxy.EventProxy.Action.{
  Callback, handle_new_client, clread, srvwrite, srvread, clwrite, Pointer, null, wild, block,
  EventAction, Call, free_pointer, free_event_action, client_action,
}
use multiplexing_proxy.EventProxy.Accept.{Accepted, accepted, none_left, accept_one, accept_loop}
use multiplexing_proxy.EventProxy.Write.{Write, wrote, server_loop, client_loop}
use multiplexing_proxy.EventProxy.Write.Loops.{Stops}
use multiplexing_proxy.EventProxy.Srvread.{or_calloc}
use multiplexing_proxy.EventProxy.Read.{Read, got, failed, after_read, read_loop}
use multiplexing_proxy.EventProxy.MainLoop.{Answers}

-- A read answers the end of the stream, or an error other than EINTR, at some point.
abbrev pub ReadsStop : Platform → List Read → Type 0
ReadsStop os [] = ⊥
ReadsStop os (got [] ∷ answers) = Unit
ReadsStop os (got (c ∷ cs) ∷ answers) = ReadsStop os answers
ReadsStop os (failed e ∷ answers) = if e == os.eintr then ReadsStop os answers else Unit

-- A write answers 0 at some point.
abbrev pub Answers0 : List Write → Type 0
Answers0 [] = ⊥
Answers0 (wrote zero ∷ ws) = Unit
Answers0 (wrote (suc n) ∷ ws) = Answers0 ws
Answers0 (Write.failed e ∷ ws) = Answers0 ws

-- At some point `accept` gives no descriptor, or one of the calls for a new one fails.
abbrev pub AcceptsStop : List Accepted → Type 0
AcceptsStop [] = ⊥
AcceptsStop (none_left ∷ answers) = Unit
AcceptsStop (accepted zero x y ∷ answers) = Unit
AcceptsStop (accepted (suc fd) true y ∷ answers) = Unit
AcceptsStop (accepted (suc fd) false true ∷ answers) = Unit
AcceptsStop (accepted (suc fd) false false ∷ answers) = AcceptsStop answers

-- The answers that a callback of this kind gets, in that state.
abbrev pub AnswersStop : Platform → Answers → Callback → Type 0
AnswersStop os ans handle_new_client = AcceptsStop ans.accepts
AnswersStop os ans clread = ReadsStop os ans.client.reads
AnswersStop os ans srvwrite = Stops ans.server.writes
AnswersStop os ans srvread = ReadsStop os ans.reads
AnswersStop os ans clwrite = Answers0 ans.writes

after_read-Ends : (text temp : Bytes) → Ends (after_read text temp)
unfolding after_read
after_read-Ends text temp =
    Ends->>= (strcat-Ends text temp) λ longer. Ends->>= (c_str-Ends temp) λ chunk. returns

pub read_loop-Ends :
    (os : Platform) (text temp : Bytes) (nleft passed : ℕ) (answers : List Read)
    → ReadsStop os answers
    → Ends (read_loop os text temp nleft passed answers)
unfolding read_loop
read_loop-Ends os text temp zero passed answers h = returns
read_loop-Ends os text temp (suc nleft) passed [] h = absurd h
read_loop-Ends os text temp (suc nleft) passed (got [] ∷ answers) h = returns
read_loop-Ends os text temp (suc nleft) passed (got (c ∷ cs) ∷ answers) h =
    Ends->>= (put-Ends temp (c ∷ cs)) λ temp'.
      Ends->>= (after_read-Ends text temp') λ (text', found). if-Ends found returns (
        read_loop-Ends os text' temp' (sub64 (suc nleft) (length (c ∷ cs)))
          (add64 passed (length (c ∷ cs))) answers h)
read_loop-Ends os text temp (suc nleft) passed (failed e ∷ answers) h =
    elim (Bool-cases (e == os.eintr)) [
      | inl same ↦ rw same (
          Ends->>= (after_read-Ends text temp) λ r. if-Ends r.1 returns (
            read_loop-Ends os r.0 temp (suc nleft) passed answers
              (subst (λ t. if t then ReadsStop os answers else Unit) same h)))
      | inr other ↦ rw other (if-Ends (e == os.ewouldblock || e == os.eagain) returns returns)
    ]

pub server_loop-Ends :
    (buf : Bytes) (passed : ℕ) (sent : Bytes) (errno : ℕ) (ws : List Write)
    → Stops ws
    → Ends (server_loop buf passed sent errno ws)
unfolding server_loop
server_loop-Ends buf passed sent errno [] h = absurd h
server_loop-Ends buf passed sent errno (wrote zero ∷ ws) h = returns
server_loop-Ends buf passed sent errno (wrote (suc n) ∷ ws) h =
    Ends->>= (slice-Ends buf passed (suc n))
      λ s. server_loop-Ends buf (add64 passed (suc n)) (sent ++ s) errno ws h
server_loop-Ends buf passed sent errno (Write.failed e ∷ ws) h = returns

pub client_loop-Ends :
    (buf : Bytes) (passed : ℕ) (sent : Bytes) (errno : ℕ) (ws : List Write)
    → Answers0 ws
    → Ends (client_loop buf passed sent errno ws)
unfolding client_loop
client_loop-Ends buf passed sent errno [] h = absurd h
client_loop-Ends buf passed sent errno (wrote zero ∷ ws) h = returns
client_loop-Ends buf passed sent errno (wrote (suc n) ∷ ws) h =
    Ends->>= (slice-Ends buf passed (suc n))
      λ s. client_loop-Ends buf (add64 passed (suc n)) (sent ++ s) errno ws h
client_loop-Ends buf passed sent errno (Write.failed e ∷ ws) h =
    client_loop-Ends buf (add64 passed (2 ^ 64 - 1)) sent e ws h

free_pointer-Ends : (p : Pointer) → Ends (free_pointer p)
unfolding free_pointer
free_pointer-Ends null = returns
free_pointer-Ends wild = faults
free_pointer-Ends (block b) = returns

pub free_event_action-Ends : (a : EventAction) → Ends (free_event_action a)
unfolding free_event_action
free_event_action-Ends a =
    Ends->>= (free_pointer-Ends a.data_buf)
      λ freed. Ends->>= (free_pointer-Ends a.url) λ freed'. returns

pub accept_loop-Ends :
    (calls : List Call) (spawned : List EventAction) (answers : List Accepted)
    → AcceptsStop answers
    → Ends (accept_loop calls spawned answers)
unfolding accept_loop accept_one
accept_loop-Ends calls spawned [] h = absurd h
accept_loop-Ends calls spawned (none_left ∷ answers) h = returns
accept_loop-Ends calls spawned (accepted zero x y ∷ answers) h = returns
accept_loop-Ends calls spawned (accepted (suc fd) true y ∷ answers) h = returns
accept_loop-Ends calls spawned (accepted (suc fd) false true ∷ answers) h =
    rw >>=-assoc (Ends->>= (free_event_action-Ends (client_action (pos (suc fd)))) λ freed. returns)
accept_loop-Ends calls spawned (accepted (suc fd) false false ∷ answers) h =
    accept_loop-Ends _ _ answers h

pub or_calloc-Ends : (p : Pointer) → Ends (or_calloc p)
unfolding or_calloc
or_calloc-Ends null = returns
or_calloc-Ends wild = faults
or_calloc-Ends (block b) = returns

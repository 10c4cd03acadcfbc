-- ===== src/EventProxy/MainLoop/States.antt =====
-- What the fields of an action hold in each state of its connection, over the turns of the loop.
use multiplexing_proxy.Prelude.{
  ℕ, zero, suc, ◌≡◌, refl, Bool, true, false, List, [], ◌∷◌, ◌++◌, ◌==◌, ℤ, Ensures, Ensures->>=,
  Ensures-seq, holds, waiting, Bool-cases, inl, inr,
}
use multiplexing_proxy.Memory.{Bytes}
use multiplexing_proxy.Platform.{Platform}
use multiplexing_proxy.EventProxy.Action.{
  Callback, handle_new_client, clread, srvwrite, srvread, clwrite, Pointer, null, wild, block,
  EventAction, Call, Handled, free_event_action,
}
use multiplexing_proxy.EventProxy.Accept.{Accepted, accepted, none_left, accept_one, accept_loop}
use multiplexing_proxy.EventProxy.Write.{ServerAnswers, WriteEnd, server_outcome}
use multiplexing_proxy.EventProxy.Srvread.{srvread_outcome}
use multiplexing_proxy.EventProxy.Read.{ReadEnd, Leaving, ended, paused, broken}
use multiplexing_proxy.EventProxy.Clread.{Served}

abbrev pub IsBlock : Pointer → Type 0
IsBlock null = ⊥
IsBlock wild = ⊥
IsBlock (block b) = Unit

abbrev pub IsKnown : Pointer → Type 0
IsKnown null = Unit
IsKnown wild = ⊥
IsKnown (block b) = Unit

pub block-IsKnown : (p : Pointer) → IsBlock p → IsKnown p
block-IsKnown null h = absurd h
block-IsKnown wild h = absurd h
block-IsKnown (block b) h = tt

-- The pointers of an action in a state. In `srvwrite` and `clwrite` there is data to send.
abbrev pub ConsistentAs : Callback → EventAction → Type 0
ConsistentAs handle_new_client a = Unit
ConsistentAs clread a = (a.data_buf ≡ null) × IsKnown a.url
ConsistentAs srvwrite a = IsBlock a.data_buf × IsBlock a.url
ConsistentAs srvread a = IsKnown a.data_buf × IsBlock a.url
ConsistentAs clwrite a = IsBlock a.data_buf × IsKnown a.url

abbrev pub Consistent : EventAction → Type 0
Consistent a = ConsistentAs a.callback a

abbrev pub AllConsistent : List EventAction → Type 0
AllConsistent [] = Unit
AllConsistent (a ∷ rest) = Consistent a × AllConsistent rest

-- What a callback leaves.
abbrev pub Keeps : Handled → Type 0
Keeps h = Consistent h.action × AllConsistent h.spawned

abbrev pub Leaves : Served → Type 0
Leaves s = Keeps s.handled

-- `handle_new_client`.
all-append :
    (l bs : List EventAction) → AllConsistent l → AllConsistent bs → AllConsistent (l ++ bs)
all-append [] bs ha hb = hb
all-append (a ∷ rest) bs ha hb = (ha.0, all-append rest bs ha.1 hb)

accept_one-Consistent :
    (fd : ℕ) (nonblocking_fails add_fails : Bool)
    → Ensures (λ r. AllConsistent r.spawned) (accept_one fd nonblocking_fails add_fails)
unfolding accept_one
accept_one-Consistent fd true add_fails = holds tt
accept_one-Consistent fd false true = Ensures->>= (free_event_action _) λ freed. holds tt
accept_one-Consistent fd false false = holds ((refl, tt), tt)

pub accept_loop-Consistent :
    (calls : List Call) (spawned : List EventAction) (answers : List Accepted)
    → AllConsistent spawned
    → Ensures (λ r. AllConsistent r.spawned) (accept_loop calls spawned answers)
unfolding accept_loop
accept_loop-Consistent calls spawned [] h = waiting
accept_loop-Consistent calls spawned (none_left ∷ answers) h = holds h
accept_loop-Consistent calls spawned (accepted zero x y ∷ answers) h = holds h
accept_loop-Consistent calls spawned (accepted (suc fd) x y ∷ answers) h =
    Ensures-seq (accept_one-Consistent (suc fd) x y) λ r more.
      let all = all-append spawned r.spawned h more in
      elim (Bool-cases r.returns) [
        | inl back ↦ rw back (holds all)
        | inr on ↦
            rw on (accept_loop-Consistent (calls ++ r.calls) (spawned ++ r.spawned) answers all)
      ]

-- `srvwrite`, `srvread` and `clwrite`.
module _ (os : Platform) (a : EventAction) where
  pub server_outcome-Keeps :
      (env : ServerAnswers) (buf : Bytes) (r : WriteEnd)
      → a.callback ≡ srvwrite
      → ConsistentAs srvwrite a
      → Keeps (server_outcome os env a buf r)
  unfolding server_outcome
  server_outcome-Keeps env buf r state h = elim (Bool-cases (r.passed == a.total_data_size)) [
    | inl all ↦ rw all ((tt, h.1), tt)
    | inr part ↦ rw part (rw state h, tt)
  ]

  pub srvread_outcome-Keeps :
      (added : ℤ) (r : ReadEnd) (l : Leaving)
      → a.callback ≡ srvread
      → IsBlock a.url
      → Keeps (srvread_outcome a added r l)
  unfolding srvread_outcome
  srvread_outcome-Keeps added r ended state h = ((tt, block-IsKnown a.url h), tt)
  srvread_outcome-Keeps added r paused state h = (rw state (tt, h), tt)
  srvread_outcome-Keeps added r broken state h = (rw state (tt, h), tt)

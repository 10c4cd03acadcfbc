-- ===== src/EventProxy/Write/Resume.antt =====
-- A request that goes out over several events of `srvwrite`.
use multiplexing_proxy.Prelude.{
  ℕ, ◌+◌, ◌≡◌, List, [], ◌∷◌, ◌++◌, Option, none, some, Result, done, if◌then◌else◌, ◌>>=◌,
}
use multiplexing_proxy.Memory.{Bytes}
use multiplexing_proxy.Platform.{Platform}
use multiplexing_proxy.EventProxy.Action.{EventAction}
use multiplexing_proxy.EventProxy.Write.{ServerAnswers, srvwrite}
use multiplexing_proxy.EventProxy.Write.Loops.{accepted, last_errno, Stops}

-- The events of one action, one after the other, as `main` hands them on: the action that is left,
-- and all bytes sent. When `srvwrite` returns `true`, `main` frees the action, and no later event
-- has it.
pub resume : Platform → List ServerAnswers → EventAction → Result (Option EventAction × Bytes)
resume os [] a = done (some a, [])
resume os (env ∷ envs) a = do
  h ← srvwrite os env a
  let rest = resume os envs h.action >>= λ r. done (r.0, h.sent ++ r.1)
  if h.ends then done (none, h.sent) else rest

abbrev pub accepted_all : List ServerAnswers → ℕ
accepted_all [] = 0
accepted_all (env ∷ envs) = accepted env.writes + accepted_all envs

-- Each event ends in an answer of 0 or an error, with `errno` at EAGAIN.
abbrev pub AllPause : Platform → List ServerAnswers → Type 0
AllPause os [] = Unit
AllPause os (env ∷ envs) =
    Stops env.writes × (last_errno env.errno env.writes ≡ os.eagain) × AllPause os envs

-- ===== src/EventProxy/Clread/Pieces.antt =====
-- A request that comes in pieces, over any number of events.
use multiplexing_proxy.Prelude.{ℕ, ◌≤◌, ◌<◌, ◌≡◌, true, List, [], ◌∷◌, ◌++◌, map, length}
use multiplexing_proxy.Memory.{Bytes, contains, IsText}
use multiplexing_proxy.Platform.{Platform}
use multiplexing_proxy.EventProxy.Read.{Read, got, failed, blank_line}
use multiplexing_proxy.EventProxy.Read.Pieces.{ArePieces, joined, last_length}
use multiplexing_proxy.EventProxy.Cache.{Cache}

-- The pieces that each event brings before it finds nothing more.
abbrev pub AreEvents : ℕ → List (List Bytes) → Type 0
AreEvents m [] = Unit
AreEvents m (pieces ∷ events) = ArePieces m 0 pieces × AreEvents m events

abbrev pub together : List (List Bytes) → Bytes
together [] = []
together (pieces ∷ events) = joined pieces ++ together events

-- What `read` answers in such an event.
abbrev pub pausing : Platform → List Bytes → List Read
pausing os pieces = map got pieces ++ failed os.eagain ∷ []

-- The last event: pieces without a blank line, and one that shows it.
pub record IsLast (m : ℕ) (pieces : List Bytes) (bs : Bytes) : Type 0 where
  pub before : ArePieces m 0 pieces
  pub text : IsText bs
  pub some_bytes : 0 < length bs
  pub grows : last_length 0 pieces ≤ length bs
  pub room : length bs < m
  pub shown : contains bs blank_line ≡ true

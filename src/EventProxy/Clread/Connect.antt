-- ===== src/EventProxy/Clread/Connect.antt =====
-- The walk over the server's addresses.
use mathlib.Core.List.{append_assoc, append-nil}
use multiplexing_proxy.Prelude.{◌≡◌, refl, ◌∙◌, true, false, List, [], ◌∷◌, ◌++◌, none, some, ℤ}
use multiplexing_proxy.EventProxy.Action.{Call}
use multiplexing_proxy.EventProxy.Clread.{Address, no_socket, connected, refused, connect_first}

-- Addresses that give no connection, where closing the socket works.
abbrev pub AllRefuse : List Address → Type 0
AllRefuse [] = Unit
AllRefuse (no_socket ∷ list) = AllRefuse list
AllRefuse (connected fd ∷ list) = ⊥
AllRefuse (refused fd true ∷ list) = AllRefuse list
AllRefuse (refused fd false ∷ list) = ⊥

-- The sockets that were opened for them are closed.
abbrev pub closes : List Address → List Call
closes [] = []
closes (refused fd closed ∷ list) = Call.close fd ∷ closes list
closes (no_socket ∷ list) = closes list
closes (connected fd ∷ list) = closes list

-- The first address that connects is taken, behind any number that do not, and no later one is
-- tried; every socket that was opened before is closed. Without one that connects there is no
-- descriptor, and every socket that was opened is closed.
pub connect_first_lem :
    (tried : List Address) (calls : List Call) (fd : ℤ) (later : List Address)
    → AllRefuse tried
    → (connect_first (tried ++ connected fd ∷ later) calls ≡ (some fd, calls ++ closes tried))
      × (connect_first tried calls ≡ (none, calls ++ closes tried))
unfolding connect_first
connect_first_lem [] calls fd later h = rw (append-nil calls) (refl, refl)
connect_first_lem (no_socket ∷ tried) calls fd later h = connect_first_lem tried calls fd later h
connect_first_lem (connected _ ∷ tried) calls fd later h = absurd h
connect_first_lem (refused gd true ∷ tried) calls fd later h =
    let (found, missed) = connect_first_lem tried (calls ++ Call.close gd ∷ []) fd later h in
    (found ∙ rw append_assoc, missed ∙ rw append_assoc)
connect_first_lem (refused gd false ∷ tried) calls fd later h = absurd h

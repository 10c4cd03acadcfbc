-- ===== src/EventProxy/Read/Stale.antt =====
-- `read` does not terminate `tempBuf`, and `strcat` copies all of it: what that does to a message
-- that comes in two pieces, or with an interruption.
use multiplexing_proxy.Prelude.{List}
use multiplexing_proxy.Platform.{Platform}
use multiplexing_proxy.EventProxy.Read.{Read}

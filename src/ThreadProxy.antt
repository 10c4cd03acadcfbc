-- ===== src/ThreadProxy.antt =====
-- httpProxy-master/proxylab-handout/proxy.c: the proxy with a pool of threads, and its sbuf.c.
pub mod Sbuf
pub mod Store
pub mod Lock
pub mod Relay
pub mod Worker
pub mod Log

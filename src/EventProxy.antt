-- ===== src/EventProxy.antt =====
-- proxylab-handout/proxy.c: the proxy that serves every client from one epoll loop.
pub mod Action
pub mod Write
pub mod Read
pub mod Srvread
pub mod Request
pub mod Wire
pub mod Cache
pub mod Clread
pub mod Accept
pub mod MainLoop
pub mod Echo

-- ===== src/Tiny.antt =====
-- proxylab-handout/tiny/tiny.c: the small web server that the proxies are tried against. The child
-- that serves one connection runs `doit`; `main` only accepts and forks.
pub mod Uri
pub mod Print
pub mod Serve
pub mod Doit

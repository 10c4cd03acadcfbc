-- ===== src/Cgi.antt =====
-- The programs under proxylab-handout/tiny/cgi-bin, which the web server runs.
pub mod Atoi
pub mod Adder
pub mod Slow

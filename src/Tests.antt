-- ===== src/Tests.antt =====
-- Runs of the models, and the theorems at concrete inputs.
mod Sending
mod Requests
mod Events
mod Threads
mod Web
mod Cgi
mod Pages
mod Histories
mod Orders
mod Pieces
mod Exchange
mod Buffers

-- ===== src/Tests.antt =====
-- The theorems at concrete inputs.
mod Locks
mod Lists
mod Pool
mod Buffers
mod Caches
mod Fifos
mod Gvars
mod Requests
mod Clients
mod Servers
mod SkipLists
mod Cascades

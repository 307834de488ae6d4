-- ===== src/Tests.antt =====
-- The theorems applied to concrete inputs, a file for each part.
mod Memory
mod Swapping
mod Paging
mod Network
mod Sockets
mod Library
mod Process
mod Files
mod Descriptors
mod Names

-- ===== src/Tests.antt =====
-- Runs of the definitions on inputs of the repository's tests, and instances of the theorems.
mod Wire
mod Texts
mod Transfers
mod Disk
mod Uploads
mod Downloads
mod Clients
mod EndToEnd
mod Servers
mod Completed

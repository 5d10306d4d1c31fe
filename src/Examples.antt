-- ===== src/Examples.antt =====
-- The theorems at concrete inputs, a module for each part of the program.
mod Quota
mod Sweep
mod Iop
mod Janus
mod Mbf
mod Formula
mod Eav
mod Cedar
mod Codice
mod Standard
mod Wire
mod Ledger
mod Resolver
mod Zone
mod Head

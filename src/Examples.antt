-- ===== src/Examples.antt =====
-- Concrete runs: each theorem of the library's results at an input that exercises the code.
mod Shards
mod Transfers
mod Logs
mod Elections
mod Groups
mod Runs
mod Catching
mod Engines
mod Applying
mod Banks
mod SubCents
mod Clients

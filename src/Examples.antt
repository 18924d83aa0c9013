-- ===== src/Examples.antt =====
-- Small inputs: what the code does on them, and each theorem at an input that exercises it.
mod Graphs
mod Plans
mod Knowledge
mod Publications
mod Spends
mod Names
mod Turns
mod Ingestion
mod Accounts
mod Erasures
mod Chunking

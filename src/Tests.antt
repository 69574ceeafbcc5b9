-- ===== src/Tests.antt =====
-- Runs of the code on concrete inputs.
mod Strings
mod Filters
mod Encodings
mod Values
mod Connections
mod Searches
mod Paging
mod Exchanges
mod Calls
mod Openings
mod Layers
mod Binds

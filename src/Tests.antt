-- ===== src/Tests.antt =====
-- Concrete memories, and the theorems at them.
mod KLists
mod Deques
mod HLists
mod Hashes
mod Hashtables
mod AssocArrays
mod LeakDetectors
mod Mains
mod Onces

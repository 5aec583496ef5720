-- ===== src/Tests.antt =====
-- Concrete inputs on which the theorems are applied.
mod Layout
mod Caching
mod Blocks
mod Allocation
mod Trees
mod Files
mod Nodes
mod Tables
mod Commands

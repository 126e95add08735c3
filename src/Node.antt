-- ===== src/Node.antt =====
-- The inner node classes of include/art/ar_tree.h.
pub mod Sorted
pub mod Node16
pub mod Indexed
pub mod Direct
pub mod Growth
pub mod Slots
pub mod Body

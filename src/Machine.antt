-- ===== src/Machine.antt =====
-- The life of a vault's status across the operations that change it: the order that every one of
-- them respects, and the histories that they make.
pub mod Rows
pub mod Triggers
pub mod Turns
pub mod Owner
pub mod History

-- ===== src/StackMap.antt =====
-- engine/bjvm/vm/stackmaptable.c: the iterator over the frames of a method's StackMapTable.
pub mod Types
pub mod Reader
pub mod Next
pub mod Init

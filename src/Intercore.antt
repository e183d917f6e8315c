-- ===== src/Intercore.antt =====
-- mt3620-intercore.c: the ring buffers through which the two cores exchange messages.
pub mod Words
pub mod Ring
pub mod Blocks
pub mod Enqueue
pub mod Held
pub mod Take
pub mod Queue
pub mod Contents
pub mod Writer
pub mod Reader
pub mod Refine
pub mod Safety

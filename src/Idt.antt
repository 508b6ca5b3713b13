-- ===== src/Idt.antt =====
-- src/idt.c and src/idt.h: gate descriptors, the handler registry, the PICs and the dispatch.
pub mod Gate
pub mod Registry
pub mod Pic
pub mod Chip
pub mod Delivery
pub mod Table
pub mod Report
pub mod Exceptions

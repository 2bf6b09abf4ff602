-- ===== src/Service.antt =====
-- internal/service: the rules of the program, over the interfaces that its layers below implement.
pub mod Event
pub mod Aggregation
pub mod Auth

-- ===== src/Domain.antt =====
-- internal/domain/event.go: the data structures that all parts share.
pub mod Event
pub mod Config
pub mod StringList

-- ===== src/Tests.antt =====
-- Concrete runs of the models.
mod World
mod Locks
mod Osi
mod Event
mod Gas
mod Notify
mod Field
mod Stdlib
mod Tables

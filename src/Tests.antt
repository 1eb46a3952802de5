-- ===== src/Tests.antt =====
-- Concrete inputs for the theorems, by component.
mod Logs
mod Lists
mod Tables
mod Formats
mod Disk
mod Opening
mod Framework
mod Verifying

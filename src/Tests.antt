-- ===== src/Tests.antt =====
-- Tests of the definitions and the theorems at concrete inputs.
mod Commands
mod Deletion
mod Dispatcher
mod RoutedChat
mod Adapters
mod Export
mod Telegram
mod Ingest
mod Packing
mod Query
mod Reconciliation
mod Resilience

-- ===== src/Ranges.antt =====
-- utils/range_operations.py: splitting a file into download ranges, and choosing the chunks that
-- rebuild it.
pub mod Split
pub mod Coverage

-- ===== src/Match.antt =====
-- match.c: matching of words against patterns with quoting.
pub mod Quoting
pub mod Range
pub mod Marks
pub mod Class
pub mod Decide
pub mod Word
pub mod Spec
pub mod Sound
pub mod Complete
pub mod Words
pub mod Wild
pub mod Lists
mod Tests

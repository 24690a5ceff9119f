-- ===== src/Api/Wildcard.antt =====
-- `ApiBlocklist::MatchesWildcard` of source/api/api_blocklist.cpp: reading the pattern (Token),
-- the loop (Loop), what a pattern means (Relation), and the loop against it (Decision).
pub mod Token
pub mod Loop
pub mod Relation
pub mod Decision

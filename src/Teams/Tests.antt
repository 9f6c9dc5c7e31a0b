-- ===== src/Teams/Tests.antt =====
-- The theorems on the teams at concrete databases.
mod World
mod Personal
mod Answers
mod Tokens

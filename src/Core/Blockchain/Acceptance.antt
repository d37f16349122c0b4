-- ===== src/Core/Blockchain/Acceptance.antt =====
-- Which blocks a chain with validators takes.

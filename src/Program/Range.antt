-- ===== src/Program/Range.antt =====
-- The types of the numbers in memory, in every order of the steps of all threads.

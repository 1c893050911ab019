-- ===== src/Can/Tests.antt =====
-- The theorems on frames and their lengths, at concrete inputs.

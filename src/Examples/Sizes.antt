-- ===== src/Examples/Sizes.antt =====
-- Rounding, powers of two and formats.

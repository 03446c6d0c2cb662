-- ===== src/Correlation.antt =====
-- The correlation of signals under backend/lokilinux: correlation/suppression.py.
pub mod Suppression
mod Tests

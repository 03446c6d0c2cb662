-- ===== src/Incidents.antt =====
-- Incidents under backend/lokilinux: incidents/lifecycle.py, incidents/models.py,
-- incidents/service.py, and correlation/suppression.py.
pub mod Types
pub mod Lifecycle
pub mod Service
pub mod Life
mod Tests

-- ===== src/AdminUi.antt =====
-- admin-ui/app/web/skeleton: the library of the add-ons' own pages.
pub mod Router
mod Tests

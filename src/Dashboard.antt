-- ===== src/Dashboard.antt =====
-- frontend/src/features/containers/components/containers-dashboard.tsx and its URL state.
pub mod UrlState
pub mod Listing
pub mod Paging
pub mod Buttons
pub mod Actions
mod Tests

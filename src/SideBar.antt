-- ===== src/SideBar.antt =====
-- services/frontend-service/src/ui/components/SideBar/SideBar.tsx: the list of planned actions and
-- the dialog that sends them.
pub mod Accepted
pub mod Details
pub mod DeleteAll
pub mod Apply
pub mod Shown
pub mod View

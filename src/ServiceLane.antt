-- ===== src/ServiceLane.antt =====
-- services/frontend-service/src/ui/components/ServiceLane: the lane of an application on the home page.
pub mod Accepted
pub mod Display
pub mod Empty
pub mod Menu
pub mod Shown
pub mod View

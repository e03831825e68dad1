-- ===== src/Tests.antt =====
-- Concrete runs of the modelled code, which meet the conditions of the theorems.
mod Data
mod Cart
mod SideBar
mod Locks
mod Lane
mod Pages
mod Shown
mod Runs
mod Startup
mod Session

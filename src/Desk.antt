-- ===== src/Desk.antt =====
-- Support tickets, vehicles and fleets: backend/app/api/v1/tickets.py, vehicles.py and fleet.py, and the
-- routes of service.py that write a ticket or a vehicle.
pub mod Tickets
pub mod Vehicles
pub mod Fleets
pub mod Registered
pub mod Answered

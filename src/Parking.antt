-- ===== src/Parking.antt =====
-- Homework3/hw3.c: a parking lot with car owners and attendants.
pub mod Lot
pub mod Threads

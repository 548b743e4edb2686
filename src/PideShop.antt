-- ===== src/PideShop.antt =====
-- FinalProject/PideShop.c: the orders of the customers, and the chefs and deliverers that work on them.
pub mod Orders
pub mod Customers
pub mod Kitchen

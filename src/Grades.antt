-- ===== src/Grades.antt =====
-- Homework1/main.c: a shell over files of student grades.
pub mod Shell
pub mod Sorting
pub mod Records
pub mod Paging
pub mod Reports

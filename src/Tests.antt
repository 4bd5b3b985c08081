-- ===== src/Tests.antt =====
-- Concrete objects and a client over them, the theorems applied to these, and runs of the code.
mod Manager
mod Scripts
mod Jobs
mod Systems
mod Handshakes
mod Admissions
mod Convergences
mod Pipelines
mod Objects
mod Runs
mod Restores
mod Pods
mod Replicas
mod Stores
mod Controllers
mod Courses
mod Counts
mod Stored
mod Copies
mod Failures
mod InitSqls

-- ===== src/Copies.antt =====
-- api/v1/zz_generated.deepcopy.go: the deep copies of the API types, over a memory with pointers.
pub mod Memory
pub mod Heap
pub mod Slots
pub mod Calls
pub mod Replicas
pub mod Restores
pub mod Objects
pub mod Deep
pub mod Arrays
pub mod Parts
pub mod Meaning
pub mod Structs
pub mod Isolation

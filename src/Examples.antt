-- ===== src/Examples.antt =====
-- Tests of the definitions, and the theorems applied at concrete inputs.
mod Platform
mod Com
mod Services
mod Apps
mod Program
mod Threads
mod Rehash
mod Times
mod Mutexes
mod Networks
mod Composed

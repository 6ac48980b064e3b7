-- ===== src/Examples.antt =====
-- The theorems at concrete inputs, one module for each part of the kernel.
mod Locks
mod Pages
mod Journal
mod Pipes
mod Processes
mod Strings
mod Buffers
mod Cache
mod Tables
mod Files
mod Programs
mod Shells
mod Devices
mod Copies
mod Terminal

-- ===== src/Examples.antt =====
-- The theorems on concrete tables and queues.
mod Data
mod Tables
mod Workers
mod Creating
mod Watching
mod Queueing
mod Storing
mod Registering
mod Serving
mod Naming
mod Issuing
mod Proxying
mod Downloading
mod Running

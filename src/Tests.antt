-- ===== src/Tests.antt =====
-- Concrete inputs: runs of the definitions, and uses of the theorems.
mod Model
mod Tokens
mod Log
mod Rings
mod Handling
mod Consoles
mod Controls
mod Waiting
mod Displays
mod Protocols
mod Queue
mod Fences
mod Workers
mod Screens
mod Ports

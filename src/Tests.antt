-- ===== src/Tests.antt =====
-- The theorems at concrete inputs.
mod Instances
mod Store
mod Queue
mod Read
mod Handle
mod Watch
mod Settings
mod Tools
mod Life
mod Pages
mod Follow
mod Boot
mod Deliver
mod Stop
mod Launched
mod Rounds
mod Flow

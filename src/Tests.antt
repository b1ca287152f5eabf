-- ===== src/Tests.antt =====
-- The theorems at concrete inputs.
mod Codecs
mod Sets
mod Queues
mod Files
mod Hash
mod Torrents
mod Metainfos
mod Trackers
mod Sockets
mod Loops

-- ===== src/Tests.antt =====
-- Runs of the modelled parts on concrete inputs.
mod Packets
mod Requests
mod Detector
mod Settings
mod Parts
mod Server
mod Loop
mod Boot
mod Uploads
mod Sensor
mod Sockets

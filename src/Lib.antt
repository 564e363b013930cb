-- ===== src/Lib.antt =====
-- A model of galileo-terremoti, the seismometer daemon of the SeismoCloud project, which runs on
-- small boards (Raspberry Pi, Galileo) and on desktop machines.
--
-- The program and its files. The loop reads the accelerometer, updates the statistics, and sends an
-- alert to the server when a value exceeds the threshold; a command interface on UDP serves the
-- mobile app; a configuration file keeps the device's address and its position.
--   Seismometer   Seismometer.cpp: `tick` and its statistics; the LEDs and the server get effects
--   Command       CommandInterface.cpp: `checkCommandPacket`; Command/Listen: its socket;
--                 Command/Packet: `readPacket`,
--                 `sendPacket` and the struct PACKET of CommandInterface.h
--   Config        Config.cpp: the configuration and its file; Config/Split: `configSplit`;
--                 Config/Server: `checkServerConfig`
--   Led           LED.h and vendor/raspi/LED.cpp: the three LEDs and a round of their thread
--   Log, Files    Log.cpp: levels, targets and the rotation of the log file, on a file system
--   Utils         Utils.cpp: text and byte helpers; Utils/Mac: `getInterfaceMAC`; Utils/Clock:
--                 `millis`
--   Net/Tcp, Net/Udp  net/Tcp.cpp and net/Udp.cpp: the sockets
--   Net/IpAddr    net/IPaddr.cpp: IP addresses
--   Net/Http      net/HTTPClient.cpp: URLs and replies; Net/Http/Request: requests, `getConfig` and
--                 `httpSendAlert`; Net/Http/Upload: `httpPostFile` and the crash reports
--   Net/Ntp       net/NTP.cpp: the clock and `sync`
--   Net/Network   net/NetworkManager.cpp: `ping` with its checksum, the latency and the
--                 cached connection test
--   Net/TraceAccumulator  net/TraceAccumulator.cpp: the file of traced values and its upload
--   Accelerometer vendor/raspi/ADXL345Accelerometer.cpp: the sensor's registers and its axes
--   Watchdog      Watchdog.cpp: `heartBeat` and the decision of the watching process;
--                 Watchdog/Crash: `storeCrashInfos`
--   Core          galileo-core.cpp: the schedule of `loop`; Core/Setup: `setup`;
--                 Core/Program: `main`
--   Floats        floating-point numbers, as a parameter: nothing is assumed of their arithmetic
--   Base          shared lists, words, decimals and buffers
--   Tests         runs on concrete inputs
-- Functions keep their names in snake case; a static class or an object is a record, its methods
-- take and return it, and what a method does outside is a result: effects, files or packets.
--
-- Numbers are natural numbers, words wrap where the source's do. Text is a list of bytes. A write
-- outside a buffer and an exception are `none`. The loop over the lines of the configuration file
-- has fuel, one round for each character and one more: a round takes at least one character. So has
-- the loop over the headers of a reply. What the world does in the rounds of `sync` and in the waits
-- of `setup` is a list, and the model says whether the loop has ended with it.
--
-- Not modelled: the debugging modes and the crash handler of `main`, and the calls of the operating
-- system, whose answers are arguments here, so also the platforms' `platformReboot` and
-- `platformUpgrade`; log lines of the modelled parts; the MMA7361 and SMBus libraries, which are
-- other projects' code. The SMBus calls are a parameter of the sensor's driver. Where a call may not
-- come back (a reboot, an upgrade, an end in a fault), the caller takes as an argument whether it
-- does. Numbers that `atoi` cannot hold and an address read past its end are undefined in the
-- source; here the one wraps and the other gives 0. The jump of the clock when `date -s` sets it is
-- not followed.
pub mod Accelerometer
pub mod Base
pub mod Net
pub mod Utils
pub mod Floats
pub mod Command
pub mod Config
pub mod Seismometer
pub mod Led
pub mod Files
pub mod Log
pub mod Core
pub mod Watchdog
mod Tests

-- ===== src/Tests.antt =====
-- Runs of the modelled code on concrete inputs, and instances of the theorems.
mod Data
mod Codec
mod Wait
mod Requests
mod Ring
mod Serial
mod Connect
mod Devices
mod Gpio
mod Slave
mod Core
mod Command
mod Azure
mod Start

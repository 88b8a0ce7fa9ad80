-- ===== src/Examples.antt =====
-- Concrete instances of the parameters, and the theorems at concrete inputs.
mod ToyPrimitives
mod ToyCodec
mod Formats
mod ToyStorage
mod Sessions
mod Facts
mod Starts
mod StartFacts
mod Witnesses
mod StartWitnesses
mod ToyFingerprints
mod Arrival
mod Siv
mod ToyCurve
mod Orders
mod Stored
mod Chain
mod SenderKeys

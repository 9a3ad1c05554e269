-- ===== src/Examples.antt =====
-- The theorems at concrete inputs, by the part of the program: the parameters that stand for other
-- crates are small functions here.
mod Parameters
mod OfModel
mod OfCrypto
mod OfStore
mod OfRetention
mod OfServe
mod OfCli
mod OfEncryption
mod OfEngine
mod Sealing

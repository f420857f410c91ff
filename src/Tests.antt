-- ===== src/Tests.antt =====
-- Runs of the definitions at small inputs, and the theorems at inputs that meet their hypotheses.
mod Powers
mod Query
mod BinBundle
mod Edit
mod Cuckoo
mod Benes
mod Conversion
mod Interpolate
mod Workers
mod ReceiverDb
mod Encoding
mod Plaintext

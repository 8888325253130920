-- ===== src/Handshake/Tests.antt =====
-- The theorems on the exchange, with bodies of NUL bytes and with bodies that held 1 everywhere.
use hex.Base.{replicate}
use hex.Protocol.{Bytes}
use hex.Client
use hex.Server

abbrev nuls : Bytes
nuls = replicate 192 0

abbrev ones : Bytes
ones = replicate 192 1

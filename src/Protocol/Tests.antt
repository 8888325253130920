-- ===== src/Protocol/Tests.antt =====
-- The theorem on strings, on a name of two letters put into a body that held 7 everywhere.
use hex.Base.{[], ◌∷◌, replicate, arith}
use hex.Protocol.{Bytes}
use hex.Protocol.Strings.{NoNul}

abbrev name : Bytes
name = 65 ∷ 66 ∷ []

abbrev sevens : Bytes
sevens = replicate 40 7

name-NoNul : NoNul name
name-NoNul = (omega arith, (omega arith, tt))

-- ===== src/Tests/Transfers.antt =====
-- The transfers at concrete streams.
use libemq.Base.{ℕ, List, ◌∷◌, []}
use libemq.Network.Write.{Writes, client_write-Writes}
use libemq.Network.Read.{Reads, client_read-Reads}
use libemq.System.Pipe.{pipe_posix, pipe}
use libemq.Tests.{at_pipe, fresh}
use libemq.Network.{client_read, client_write}

abbrev bytes : List ℕ
bytes = 1 ∷ 2 ∷ 3 ∷ 4 ∷ 5 ∷ 6 ∷ 7 ∷ []

client_read-Reads_example :
    Reads pipe_posix 5 (at_pipe fresh bytes) (client_read pipe 5 (at_pipe fresh bytes))
client_read-Reads_example = client_read-Reads pipe_posix 5 (at_pipe fresh bytes)

client_write-Writes_example :
    Writes pipe_posix bytes (at_pipe fresh []) (client_write pipe bytes (at_pipe fresh []))
client_write-Writes_example = client_write-Writes pipe_posix bytes (at_pipe fresh [])

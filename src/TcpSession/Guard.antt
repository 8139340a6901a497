-- ===== src/TcpSession/Guard.antt =====
-- loft/src/tls_tcp.rs: `GuardedTcp`, the socket under TLS that fails once the handshake's deadline passed.
use loft.Prelude.{ℕ, Bool, ◌&&◌, Option, none, some, List, [], ◌∷◌, ◌++◌, leb, if◌then◌else◌}

-- What passed over the socket.
pub data Transfer : Type 0 where
  received sent : List ℕ → Transfer

-- The wrapper, and what its socket has carried: the instants at which the call began and returned, and what
-- passed in it.
pub record GuardedTcp : Type 0 where
  pub deadline : ℕ
  pub is_armed : Bool
  pub carried : List (ℕ × ℕ × Transfer)

-- What `TcpStream` gives: `moved` for the bytes that were read or taken.
pub data Io : Type 0 where
  moved : List ℕ → Io
  timed_out failed : Io

unfoldable pub expired : ℕ → GuardedTcp → Bool
expired now g = g.is_armed && leb g.deadline now

abbrev pub carry : (List ℕ → Transfer) → ℕ → ℕ → Option (List ℕ) → GuardedTcp → Io × GuardedTcp
carry way now later none g = (failed, g)
carry way now later (some bytes) g =
    (moved bytes, record g { carried = g.carried ++ ((now, later, way bytes) ∷ []) })

-- `Read::read`; `incoming` is what the socket gives, and the call of the socket returns at `later`.
unfoldable pub read : ℕ → ℕ → Option (List ℕ) → GuardedTcp → Io × GuardedTcp
unfolding expired
read now later incoming g =
    if expired now g then (timed_out, g) else carry received now later incoming g

-- `Write::write`; `taken` is the part of the bytes that the socket takes.
unfoldable pub write : ℕ → ℕ → Option (List ℕ) → GuardedTcp → Io × GuardedTcp
unfolding expired
write now later taken g = if expired now g then (timed_out, g) else carry sent now later taken g

-- A call that OpenSSL makes, the instants at which it begins and returns, and what it gives.
pub data Ask : Type 0 where
  to_read to_write : ℕ → ℕ → Option (List ℕ) → Ask

unfoldable pub io : Ask → GuardedTcp → Io × GuardedTcp
unfolding read write
io (to_read now later incoming) g = read now later incoming g
io (to_write now later taken) g = write now later taken g

-- The calls of one `accept` or `handshake`, in order.
unfoldable pub io_all : List Ask → GuardedTcp → GuardedTcp
unfolding io
io_all [] g = g
io_all (a ∷ more) g = io_all more (io a g).1

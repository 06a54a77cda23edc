-- ===== src/Config/Agent/Ports.antt =====
-- agent/config/config.go: which ports an address may be.
use Prim.Native.String
use piko.Prelude.{ℕ, ◌≤◌, ◌≡◌, refl, ltb, if◌then◌else◌, none, some, Text.{itoa, atoi-itoa}}
use piko.Prelude.Int.{pos, max_int}
use piko.Config.Agent.{Library, is_port, host}

-- A number as an address: the port of that number on the local host if it is below 65535, and
-- invalid otherwise, so that the port 65535 is invalid. A number has no host before it.
pub host-port :
    (lib : Library) (n : ℕ)
    → n ≤ max_int
    → lib.split_host_port (itoa (pos n)) ≡ none
    → host lib (itoa (pos n))
      ≡ (if ltb n 65535 then some (String.◌++◌ "localhost:" (itoa (pos n))) else none)
unfolding host
host-port lib n m alone = rw (atoi-itoa n m, host, alone, is_port) refl

-- ===== src/Io.antt =====
-- src/io.h: `outb` and `inb`, as an interface to the devices behind the ports. What a device does on
-- a read or a write is not in the source, so it is an argument of the drivers.
use god_os.Base.{ℕ}

-- The port instructions on the states `D` of the devices: a port, and the byte written or read.
pub record Bus (D : Type 0) : Type 0 where
  pub outb : ℕ → ℕ → D → D
  pub inb : ℕ → D → ℕ × D

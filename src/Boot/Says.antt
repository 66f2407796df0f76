-- ===== src/Boot/Says.antt =====
-- A message of src/pmm.c before the rest of its function.
use god_os.Base.{ℕ, List}
use god_os.Io.{Bus}
use god_os.Vga.{Screen}
use god_os.Vga.Format.{Arg}
use god_os.Vga.Refine.{vga_printf-Prints}
use god_os.Boot.{Machine, Init, say}
use god_os.Boot.Checks.{Line}

-- What the rest leads to on every screen, the code leads to with the message before it.
pub say-Leads :
    {D : Type 0} (bus : Bus D) (bss_end : ℕ) (R : Init (Machine D) → Type 0) {fmt : List ℕ}
    {args : List Arg} (rest : Machine D → Init (Machine D)) (m : Machine D)
    → Line fmt args
    → ((screen : Screen D) → R (rest (record m { screen = screen })))
    → R (say bus bss_end fmt args rest m)
unfolding say
say-Leads bus bss_end R rest m (out, prints) later =
    rw (vga_printf-Prints bus m.screen prints, say) (later _)

-- ===== src/Vga/Cells.antt =====
-- What the loops of src/vga.c leave in the text buffer, cell by cell.
use god_os.Base.{ℕ, ◌+◌, ◌-◌, ◌*◌, ◌≡◌, ltb, leb, if◌then◌else◌, ◌&&◌, arith}
use god_os.Base.Loop.{count_to_inv}
use god_os.Vga.{Screen, vga_width, vga_height, vga_entry, shift_up, blank_cells, vga_scroll}

shift_up_lem :
    (cells : ℕ → ℕ) (j : ℕ)
    → shift_up cells j ≡ (if ltb j (24 * 80) then cells (j + 80) else cells j)
unfolding shift_up
shift_up_lem cells j =
    count_to_inv (λ k (bs : ℕ → ℕ). (j : ℕ) → bs j ≡ (if ltb j k then cells (j + 80) else cells j))
      (24 * 80) (λ k bs lt so_far j. ground (arith, so_far j, so_far (k + 80))) (λ j. ground arith)
      j

pub blank_cells_lem :
    (color first n : ℕ) (cells : ℕ → ℕ) (j : ℕ)
    → blank_cells color first n cells j
      ≡ (if leb first j && ltb j (first + n) then vga_entry b' ' color else cells j)
unfolding blank_cells
blank_cells_lem color first n cells j =
    count_to_inv
      (λ k (bs : ℕ → ℕ).
        (j : ℕ)
        → bs j ≡ (if leb first j && ltb j (first + k) then vga_entry b' ' color else cells j))
      n (λ k bs lt so_far j. ground (arith, so_far j)) (λ j. ground arith) j

-- Scrolling moves the lines 1 to 24 up and blanks the last one; cells behind the screen stay.
pub vga_scroll_lem :
    {D : Type 0} (s : Screen D) (j : ℕ)
    → (vga_scroll s).cells j ≡ (
        if ltb j (24 * 80)
        then s.cells (j + 80)
        else if ltb j (25 * 80)
        then vga_entry b' ' s.color
        else s.cells j)
unfolding vga_scroll
vga_scroll_lem s j = ground (
  arith,
  shift_up_lem s.cells j,
  blank_cells_lem s.color ((vga_height - 1) * vga_width) vga_width (shift_up s.cells) j,
)

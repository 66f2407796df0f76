-- ===== src/Boot/Ready.antt =====
-- What `pmm_init` of src/pmm.c begins with, and what it ends with.
use god_os.Base.{ℕ, Bool, ◌+◌, ◌*◌, ◌^◌, ◌≡◌, ◌<◌, false, some, ◌⊎◌, inl, inr}
use god_os.Pmm.{Bitmap, frame_count}
use god_os.Pmm.Bitmap.{Bytes, is_used}
use god_os.Pmm.Init.{reserved}
use god_os.Pmm.Invariant.{IsValid}
use god_os.Vm.Entries.{child_of}
use god_os.Identity.{translate}
use god_os.Identity.Keeps.{IsIdentity, Keeps, AllLarge}
use god_os.Boot.{Machine, Init, ready, failed, with_words}

-- What the boot code has set up: tables that map by large pages and to the same addresses, address 0
-- among them; and bytes are bytes.
pub record Booted (cr3 : ℕ) (words bytes : ℕ → ℕ) (bitmap : Bitmap) : Type 0 where
  pub identity : IsIdentity cr3 words
  pub large : AllLarge cr3 words
  pub first : translate cr3 words 0 ≡ some 0
  pub memory : (a : ℕ) → bytes a < 256
  pub frames : Bytes bitmap

pub Booted-Keeps :
    {cr3 : ℕ} {words w bytes : ℕ → ℕ} {bitmap : Bitmap}
    → Booted cr3 words bytes bitmap
    → Keeps cr3 words w
    → Booted cr3 w bytes bitmap
Booted-Keeps b keeps = record {
  identity = keeps.identity;
  large = keeps.large b.large;
  first = keeps.old 0 0 b.first;
  memory = b.memory;
  frames = b.frames;
}

abbrev pub BootedAt : {D : Type 0} → Machine D → Type 0
BootedAt m = Booted m.vm.cr3 m.vm.words m.bytes m.vm.pmm.bitmap

-- `*(uint32_t *)addr`: the total size that the boot information begins with.
abbrev pub size_at : (ℕ → ℕ) → ℕ → ℕ
size_at bytes a = bytes a + bytes (a + 1) * 2 ^ 8 + bytes (a + 2) * 2 ^ 16 + bytes (a + 3) * 2 ^ 24

-- What `pmm_init` leaves alone: CR3 and the variables of src/vm.c.
abbrev pub registers_of : {D : Type 0} → Machine D → ℕ × ℕ × ℕ × Bool
registers_of m = (m.vm.cr3, m.vm.kernel_space, m.vm.faults, m.vm.in_fault)

-- The frames can be handed out: the allocator is valid and keeps the range of the boot information at
-- `mb_info`, with the size read there; every free frame is mapped to itself and has no byte of the
-- kernel or of that range.
pub record Ready {D : Type 0} (bss_end mb_info : ℕ) (bytes : ℕ → ℕ) (registers : ℕ × ℕ × ℕ × Bool)
    (words : ℕ → ℕ) (m : Machine D) : Type 0 where
  pub information : m.vm.pmm.mb_info ≡ mb_info
  pub information_end : m.vm.pmm.info_end ≡ mb_info + size_at bytes mb_info
  pub same_bytes : m.bytes ≡ bytes
  pub same_registers : ◌≡◌ {A = ℕ × ℕ × ℕ × Bool} (registers_of m) registers
  -- No new entry leads to a further table.
  pub children : (x c : ℕ) → child_of (m.vm.words x) ≡ some c → child_of (words x) ≡ some c
  pub allocator : IsValid m.vm.pmm
  pub free_mapped :
      (f k : ℕ)
      → f < frame_count
      → is_used m.vm.pmm.bitmap f ≡ false
      → k < 4096
      → translate m.vm.cr3 m.vm.words (f * 4096 + k) ≡ some (f * 4096 + k)
  pub free_spared :
      (f : ℕ)
      → f < frame_count
      → is_used m.vm.pmm.bitmap f ≡ false
      → reserved bss_end m.vm.pmm f ≡ false

-- From the state `m`, the code returns -1, or 0 with frames to hand out.
abbrev pub Returns : {D : Type 0} → ℕ → ℕ → Machine D → Init (Machine D) → Type 0
Returns {D} bss_end mb_info m r =
    (m' : Machine D) × ((r ≡ failed m')
      ⊎ ((r ≡ ready m') × Ready bss_end mb_info m.bytes (registers_of m) m.vm.words m'))

-- What holds from tables that were filled holds from those before.
pub Returns-Keeps :
    {D : Type 0} {bss_end mb_info : ℕ} (m : Machine D) (w : ℕ → ℕ) {r : Init (Machine D)}
    → Keeps m.vm.cr3 m.vm.words w
    → Returns bss_end mb_info (with_words w m) r
    → Returns bss_end mb_info m r
Returns-Keeps m w keeps (m', inl bad) = (m', inl bad)
Returns-Keeps m w keeps (m', inr (good, is)) = (
  m',
  inr (
    good,
    record {
      information = is.information;
      information_end = is.information_end;
      same_bytes = is.same_bytes;
      same_registers = is.same_registers;
      children = λ x c e. keeps.children x c (is.children x c e);
      allocator = is.allocator;
      free_mapped = is.free_mapped;
      free_spared = is.free_spared;
    },
  ),
)

-- ===== src/Boot/Reads.antt =====
-- What `pmm_init` of src/pmm.c reads of the boot information, through the tables.
use god_os.Base.{
  ℕ, zero, suc, ◌+◌, ◌*◌, ap, false, ◌^◌, ◌≡◌, ◌≢◌, ◌<◌, ◌≤◌, refl, ◌∙◌, ltb, ◌==◌, Bool, ◌||◌,
  none, some, arith, Bool-cases, Option-cases, inl, inr,
}
use god_os.Mb2.{Memory, ok, error, load, mb2_init}
use god_os.Mb2.Entries.{Mapped}
use god_os.Mb2.Words.{Bytewise}
use god_os.Identity.{translate}
use god_os.Boot.{Machine, memory, max_ranges}
use god_os.Boot.Ready.{size_at}

pub memory-translate :
    {D : Type 0} (m : Machine D) (j : ℕ) {p : ℕ}
    → translate m.vm.cr3 m.vm.words j ≡ some p
    → memory m j ≡ some (m.bytes p)
unfolding memory
memory-translate m j e = rw (e, memory)

pub memory-Mapped :
    {D : Type 0} (m : Machine D) {lo hi : ℕ}
    → ((a : ℕ) → m.bytes a < 256)
    → ((j : ℕ) → lo ≤ j → j < hi → translate m.vm.cr3 m.vm.words j ≡ some j)
    → Mapped (memory m) lo hi
memory-Mapped m bytes there j a b = (m.bytes j, memory-translate m j (there j a b), bytes j)

pub memory-Bytewise :
    {D : Type 0} (m : Machine D) → ((a : ℕ) → m.bytes a < 256) → Bytewise (memory m)
unfolding memory
memory-Bytewise m bytes a b e = elim (Option-cases (translate m.vm.cr3 m.vm.words a)) [
  | inl absent ↦ absurd (none_some (rw (absent, memory) at e))
  | inr (p, is) ↦ omega (arith, bytes p, some_inj (rw (is, memory) at e))
]
  where
    none_some : none ≢ some b
    none_some e = cc

    some_inj : {a b : ℕ} → some a ≡ some b → a ≡ b
    some_inj e = cc

-- A read depends on the bytes read alone.
pub load-agree :
    (n : ℕ) (mem mem' : Memory) (p : ℕ)
    → ((j : ℕ) → p ≤ j → j < p + n → mem j ≡ mem' j)
    → load n mem p ≡ load n mem' p
unfolding load
load-agree zero mem mem' p same = refl
load-agree (suc n) mem mem' p same =
    let here = same p (omega arith) (omega arith) in
    let later = load-agree n mem mem' (p + 1) (λ j a b. same j (omega arith) (omega arith)) in
    elim (Option-cases (mem' p)) [
      | inl absent ↦ rw (here ∙ absent, absent, load)
      | inr (b, is) ↦ rw (here ∙ is, is, later, load)
    ]

pub info_end_Word :
    (mem : Memory) (ranges_null info_end_null : Bool) (max_count info_addr : ℕ)
    → elim (mb2_init mem ranges_null info_end_null max_count info_addr).info_end [
      | none ↦ 0
      | some end ↦ end
    ]
      < 2 ^ 64
unfolding mb2_init
info_end_Word mem ranges_null info_end_null max_count info_addr =
    elim (Bool-cases (ranges_null || info_end_null || max_count == 0)) [
      | inl null ↦ rw null (omega arith)
      | inr given ↦ elim (Option-cases (load 4 mem info_addr)) [
        | inl absent ↦ rw (given, absent) (omega arith)
        | inr (total_size, is) ↦ elim (Bool-cases (total_size == 0 || ltb 0x100000 total_size)) [
          | inl bad ↦ rw (given, is, bad) (omega arith)
          | inr good ↦ rw (given, is, good) (omega arith)
        ]
      ]
    ]

load-more :
    (n : ℕ) (mem : Memory) (p : ℕ) {b v : ℕ}
    → mem p ≡ some b
    → load n mem (p + 1) ≡ some v
    → load (suc n) mem p ≡ some (b + 256 * v)
unfolding load
load-more n mem p e e' = rw (e, e', load)

-- The four bytes of a size, where they are mapped to themselves.
pub load-size_at :
    (mem : Memory) (bytes : ℕ → ℕ) (p : ℕ)
    → ((j : ℕ) → p ≤ j → j < p + 4 → mem j ≡ some (bytes j))
    → load 4 mem p ≡ some (size_at bytes p)
unfolding load
load-size_at mem bytes p there =
    let c' : p + 1 + 1 ≡ p + 2 = omega arith in
    let d' : p + 1 + 1 + 1 ≡ p + 3 = omega arith in
    load-more 3 mem p (there p (omega arith) (omega arith)) (
      load-more 2 mem (p + 1) (there (p + 1) (omega arith) (omega arith)) (
        load-more 1 mem (p + 1 + 1) (there (p + 1 + 1) (omega arith) (omega arith)) (
          load-more 0 mem (p + 1 + 1 + 1) (there (p + 1 + 1 + 1) (omega arith) (omega arith))
            refl)))
    ∙ ap some (sum (bytes p) (bytes (p + 1)) (ap bytes c') (ap bytes d'))
  where
    sum :
        (x y : ℕ) {c d c' d' : ℕ}
        → c ≡ c'
        → d ≡ d'
        → x + 256 * (y + 256 * (c + 256 * (d + 256 * 0)))
          ≡ x + y * 2 ^ 8 + c' * 2 ^ 16 + d' * 2 ^ 24
    sum x y e e' = omega arith

-- Where the parser succeeds, the end that it stores is the one that the total size announces.
pub info_end_value :
    (mem : Memory) (info_addr total_size : ℕ)
    → info_addr < 2 ^ 30
    → load 4 mem info_addr ≡ some total_size
    → (mb2_init mem false false max_ranges info_addr).status ≡ ok
    → elim (mb2_init mem false false max_ranges info_addr).info_end [ none ↦ 0 | some end ↦ end ]
      ≡ info_addr + total_size
unfolding mb2_init
info_end_value mem info_addr total_size low is good =
    elim (Bool-cases (total_size == 0 || ltb 0x100000 total_size)) [
      | inl bad ↦ absurd (error-ok (rw (is, bad) at good))
      | inr sized ↦ rw (is, sized) (ground arith)
    ]
  where
    error-ok : error ≢ ok
    error-ok e = cc

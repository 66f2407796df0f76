-- ===== src/Mb2/Entries.antt =====
-- The memory-map tag of src/mb2.c: its entries are read inside of the tag.
use god_os.Base.{
  ℕ, zero, suc, ◌+◌, ◌-◌, ◌*◌, ◌/◌, ◌%◌, ◌^◌, ◌≤◌, ◌<◌, ◌≡◌, refl, ◌==◌, ltb, leb, false, some,
  List, [], ◌∷◌, length, arith, Bool-cases, inl, inr, ◌⊎◌, length-append, ltb-false,
}
use mathlib.Core.Path.{subst}
use native.Mathlib.Nat.{pow-suc, div-add-mod, mul_comm}
use god_os.Pmm.{Range}
use god_os.Mb2.{
  Memory, load, Status, ok, error, Walk, go, stop, keep_entry, read_entry, take_entry, take_entries,
  read_mmap,
}

-- All addresses from `lo` up to `hi` are mapped to bytes.
abbrev pub Mapped : Memory → ℕ → ℕ → Type 0
Mapped mem lo hi = (j : ℕ) → lo ≤ j → j < hi → (b : ℕ) × (mem j ≡ some b) × (b < 256)

-- A read in mapped memory does not fault, and its value has as many bytes as were read.
pub load-Mapped :
    (n : ℕ) (mem : Memory) (p lo hi : ℕ)
    → Mapped mem lo hi
    → lo ≤ p
    → p + n ≤ hi
    → (v : ℕ) × (load n mem p ≡ some v) × (v < 256 ^ n)
unfolding load
load-Mapped zero mem p lo hi m a b = (0, refl, omega arith)
load-Mapped (suc n) mem p lo hi m a b =
    let (v, is, small) = m p a (omega arith) in
    let (w, is', small') = load-Mapped n mem (p + 1) lo hi m (omega arith) (omega arith) in
    (v + 256 * w, rw (is, is', load), omega (arith, pow-suc 256 n, small, small'))

-- The entries that a tag of `size` bytes has room for lie inside of it.
entry_inside :
    (size entry_size i : ℕ)
    → 16 ≤ size
    → 24 ≤ entry_size
    → i < (size - 16) / entry_size
    → 16 + i * entry_size + entry_size ≤ size
entry_inside size entry_size i a b h =
    let whole = div-add-mod (size - 16) entry_size in
    grind (arith, whole, mul_comm entry_size ((size - 16) / entry_size))

abbrev pub Ends : Status → Type 0
Ends status = (status ≡ ok) ⊎ (status ≡ error)

-- The walk has not faulted, and holds at most `max_ranges` ranges.
abbrev pub Fine : ℕ → Walk → Type 0
Fine max_ranges (go found) = length found ≤ max_ranges
Fine max_ranges (stop status found) = Ends status × (length found ≤ max_ranges)

pub Walk-cases :
    (w : Walk)
    → ((found : List Range) × (w ≡ go found))
      ⊎ ((status : Status) × (found : List Range) × (w ≡ stop status found))
Walk-cases (go found) = inl (found, refl)
Walk-cases (stop status found) = inr (status, found, refl)

keep_entry-Fine :
    (max_ranges base len kind : ℕ) (found : List Range)
    → length found ≤ max_ranges
    → Fine max_ranges (keep_entry max_ranges base len kind found)
unfolding keep_entry
keep_entry-Fine max_ranges base len kind found h = elim (Bool-cases (kind == 1)) [
  | inr other ↦ rw other h
  | inl available ↦ rw available (elim (Bool-cases (leb max_ranges (length found))) [
    | inl full ↦ rw full (inr refl, h)
    | inr room ↦ rw room (
        omega (arith, length-append found (record { base = base; length = len } ∷ []), ltb-lt room))
  ])
]
  where
    ltb-lt : leb max_ranges (length found) ≡ false → length found < max_ranges
    ltb-lt e = ground arith

module _ {mem : Memory} {lo hi : ℕ} (mapped : Mapped mem lo hi) (top : hi < 2 ^ 63) where
  read_entry-Fine :
      (max_ranges e : ℕ) (found : List Range)
      → length found ≤ max_ranges
      → lo ≤ e
      → e + 24 ≤ hi
      → Fine max_ranges (read_entry mem max_ranges e found)
  unfolding read_entry
  read_entry-Fine max_ranges e found h a b =
      let (base, is_base, _) = load-Mapped 8 mem e lo hi mapped a (omega arith) in
      let flat : (e + 8) % 2 ^ 64 ≡ e + 8 = omega arith in
      let flat' : (e + 16) % 2 ^ 64 ≡ e + 16 = omega arith in
      let (len, is_len, _) = load-Mapped 8 mem (e + 8) lo hi mapped (omega arith) (omega arith) in
      let (kind, is_kind, _) =
        load-Mapped 4 mem (e + 16) lo hi mapped (omega arith) (omega arith) in
      rw (is_base, flat, is_len, flat', is_kind, read_entry)
        (keep_entry-Fine max_ranges base len kind found h)

  take_entry-Fine :
      (max_ranges p size entry_size i : ℕ) (found : List Range)
      → length found ≤ max_ranges
      → lo ≤ p
      → p + size ≤ hi
      → 16 + i * entry_size + entry_size ≤ size
      → 24 ≤ entry_size
      → Fine max_ranges (take_entry mem max_ranges p size entry_size i found)
  unfolding take_entry
  take_entry-Fine max_ranges p size entry_size i found h a b room big =
      let flat : (p + 16 + i * entry_size) % 2 ^ 64 ≡ p + 16 + i * entry_size = omega arith in
      let inside : ltb ((p + size) % 2 ^ 64) ((p + 16 + i * entry_size + 24) % 2 ^ 64) ≡ false =
        ltb-false _ _ (omega arith) in
      rw (flat, inside, take_entry)
        (read_entry-Fine max_ranges (p + 16 + i * entry_size) found h (omega arith) (omega arith))

  take_entries-Fine :
      (max_ranges p size entry_size n i : ℕ) (found : List Range)
      → length found ≤ max_ranges
      → lo ≤ p
      → p + size ≤ hi
      → 16 ≤ size
      → 24 ≤ entry_size
      → i + n ≤ (size - 16) / entry_size
      → Fine max_ranges (take_entries mem max_ranges p size entry_size n i found)
  unfolding take_entries
  take_entries-Fine max_ranges p size entry_size zero i found h a b c d e = h
  take_entries-Fine max_ranges p size entry_size (suc n) i found h a b c d e =
      let room = entry_inside size entry_size i c d (omega arith) in
      let first = take_entry-Fine max_ranges p size entry_size i found h a b room d in
      elim (Walk-cases (take_entry mem max_ranges p size entry_size i found)) [
        | inl (found', is) ↦
            let short = subst (Fine max_ranges) is first in
            rw (is, take_entries)
              (take_entries-Fine max_ranges p size entry_size n (i + 1) found' short a b c d
                (omega arith))
        | inr (status, found', is) ↦ rw (is, take_entries) (subst (Fine max_ranges) is first)
      ]

  pub read_mmap-Fine :
      (max_ranges p size : ℕ) (found : List Range)
      → length found ≤ max_ranges
      → lo ≤ p
      → p + size ≤ hi
      → Fine max_ranges (read_mmap mem max_ranges p size found)
  unfolding read_mmap
  read_mmap-Fine max_ranges p size found h a b = elim (Bool-cases (ltb size 16)) [
    | inl short ↦ rw short (inr refl, h)
    | inr long ↦
        let flat : (p + 8) % 2 ^ 64 ≡ p + 8 = omega arith in
        let room : 16 ≤ size = ground arith in
        let (entry_size, is, _) =
          load-Mapped 4 mem (p + 8) lo hi mapped (omega arith) (omega arith) in
        rw (long, flat, is)
          (elim (Bool-cases (ltb entry_size 24)) [
            | inl small ↦ rw small (inr refl, h)
            | inr big ↦ rw big (
                take_entries-Fine max_ranges p size entry_size ((size - 16) / entry_size) 0 found h
                  a b room (ground arith) (omega arith))
          ])
  ]

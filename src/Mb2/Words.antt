-- ===== src/Mb2/Words.antt =====
-- The ranges that src/mb2.c stores are 64-bit values.
use god_os.Base.{
  ℕ, zero, suc, ◌+◌, ◌-◌, ◌*◌, ◌/◌, ◌%◌, ◌^◌, ◌≡◌, ◌≢◌, ◌<◌, ◌==◌, ltb, leb, Bool, ◌||◌, none, some,
  List, [], ◌∷◌, ◌++◌, length, arith, Bool-cases, Option-cases, inl, inr,
}
use mathlib.Core.Path.{subst}
use native.Mathlib.Nat.{pow-suc}
use god_os.Pmm.{Range}
use god_os.Pmm.Init.{Words}
use god_os.Mb2.{
  Memory, load, Walk, go, stop, keep_entry, read_entry, take_entry, take_entries, read_mmap,
  read_tag, walk_tags, mb2_init, align_up8,
}
use god_os.Mb2.Entries.{Walk-cases}

-- What is read is a byte.
abbrev pub Bytewise : Memory → Type 0
Bytewise mem = (a b : ℕ) → mem a ≡ some b → b < 256

load-below : (n : ℕ) (mem : Memory) (p v : ℕ) → Bytewise mem → load n mem p ≡ some v → v < 256 ^ n
unfolding load
load-below zero mem p v bytes e = omega (arith, some_inj e)
  where
    some_inj : {a b : ℕ} → some a ≡ some b → a ≡ b
    some_inj e = cc
load-below (suc n) mem p v bytes e = elim (Option-cases (mem p)) [
  | inl unmapped ↦ absurd (none_some (rw (unmapped, load) at e))
  | inr (low, is) ↦ elim (Option-cases (load n mem (p + 1))) [
    | inl unmapped ↦ absurd (none_some (rw (is, unmapped, load) at e))
    | inr (high, is') ↦ omega (
      arith,
      pow-suc 256 n,
      bytes p low is,
      load-below n mem (p + 1) high bytes is',
      some_inj (rw (is, is', load) at e),
    )
  ]
]
  where
    none_some : {a : ℕ} → none ≢ some a
    none_some e = cc

    some_inj : {a b : ℕ} → some a ≡ some b → a ≡ b
    some_inj e = cc

append-Words :
    (found : List Range) (r : Range)
    → Words found
    → r.base < 2 ^ 64
    → r.length < 2 ^ 64
    → Words (found ++ (r ∷ []))
append-Words [] r w a b = (a, b, _)
append-Words (q ∷ found) r w a b = (w.0, w.1, append-Words found r w.2 a b)

-- The ranges stored so far.
abbrev found_of : Walk → List Range
found_of (go found) = found
found_of (stop status found) = found

keep_entry-Words :
    (max_ranges base len kind : ℕ) (found : List Range)
    → Words found
    → base < 2 ^ 64
    → len < 2 ^ 64
    → Words (found_of (keep_entry max_ranges base len kind found))
unfolding keep_entry
keep_entry-Words max_ranges base len kind found w a b = elim (Bool-cases (kind == 1)) [
  | inr other ↦ rw other w
  | inl available ↦ elim (Bool-cases (leb max_ranges (length found))) [
    | inl full ↦ rw (available, full) w
    | inr room ↦
        rw (available, room) (append-Words found (record { base = base; length = len }) w a b)
  ]
]

module _ {mem : Memory} (bytes : Bytewise mem) where
  read_entry-Words :
      (max_ranges e : ℕ) (found : List Range)
      → Words found
      → Words (found_of (read_entry mem max_ranges e found))
  unfolding read_entry
  read_entry-Words max_ranges e found w = elim (Option-cases (load 8 mem e)) [
    | inl unmapped ↦ rw (unmapped, Words) w
    | inr (base, is) ↦ elim (Option-cases (load 8 mem ((e + 8) % 2 ^ 64))) [
      | inl unmapped ↦ rw (is, unmapped, Words) w
      | inr (len, is') ↦ elim (Option-cases (load 4 mem ((e + 16) % 2 ^ 64))) [
        | inl unmapped ↦ rw (is, is', unmapped, Words) w
        | inr (kind, is'') ↦
            rw (is, is', is'', Words)
              (keep_entry-Words max_ranges base len kind found w (load-below 8 mem e base bytes is)
                (load-below 8 mem _ len bytes is'))
      ]
    ]
  ]

  take_entry-Words :
      (max_ranges p size entry_size i : ℕ) (found : List Range)
      → Words found
      → Words (found_of (take_entry mem max_ranges p size entry_size i found))
  unfolding take_entry
  take_entry-Words max_ranges p size entry_size i found w =
      let e = (p + 16 + i * entry_size) % 2 ^ 64 in
      elim (Bool-cases (ltb ((p + size) % 2 ^ 64) ((e + 24) % 2 ^ 64))) [
        | inl outside ↦ rw (outside, Words) w
        | inr inside ↦ rw (inside, Words) (read_entry-Words max_ranges e found w)
      ]

  take_entries-Words :
      (max_ranges p size entry_size n i : ℕ) (found : List Range)
      → Words found
      → Words (found_of (take_entries mem max_ranges p size entry_size n i found))
  unfolding take_entries
  take_entries-Words max_ranges p size entry_size zero i found w = w
  take_entries-Words max_ranges p size entry_size (suc n) i found w =
      let first = take_entry-Words max_ranges p size entry_size i found w in
      elim (Walk-cases (take_entry mem max_ranges p size entry_size i found)) [
        | inl (found', is) ↦
            rw (is, take_entries, Words)
              (take_entries-Words max_ranges p size entry_size n (i + 1) found'
                (subst (λ x. Words (found_of x)) is first))
        | inr (status, found', is) ↦
            rw (is, take_entries, Words) (subst (λ x. Words (found_of x)) is first)
      ]

  read_mmap-Words :
      (max_ranges p size : ℕ) (found : List Range)
      → Words found
      → Words (found_of (read_mmap mem max_ranges p size found))
  unfolding read_mmap
  read_mmap-Words max_ranges p size found w = elim (Bool-cases (ltb size 16)) [
    | inl short ↦ rw (short, Words) w
    | inr long ↦ elim (Option-cases (load 4 mem ((p + 8) % 2 ^ 64))) [
      | inl unmapped ↦ rw (long, unmapped, Words) w
      | inr (entry_size, is) ↦ elim (Bool-cases (ltb entry_size 24)) [
        | inl small ↦ rw (long, is, small, Words) w
        | inr big ↦
            rw (long, is, big, Words)
              (take_entries-Words max_ranges p size entry_size ((size - 16) / entry_size) 0 found w)
      ]
    ]
  ]

  read_tag-Words :
      (max_ranges limit p kind size : ℕ) (found : List Range)
      → Words found
      → Words (found_of (read_tag mem max_ranges limit p kind size found))
  unfolding read_tag
  read_tag-Words max_ranges limit p kind size found w = elim (Bool-cases (kind == 0)) [
    | inl last ↦ rw (last, Words) w
    | inr more ↦ elim (Bool-cases (ltb size 8 || ltb limit ((p + size) % 2 ^ 64))) [
      | inl bad ↦ rw (more, bad, Words) w
      | inr good ↦ elim (Bool-cases (kind == 6)) [
        | inl map ↦ rw (more, good, map, Words) (read_mmap-Words max_ranges p size found w)
        | inr other ↦ rw (more, good, other, Words) w
      ]
    ]
  ]

  walk_tags-Words :
      (max_ranges limit fuel p : ℕ) (found : List Range)
      → Words found
      → Words (walk_tags mem max_ranges limit fuel p found).1
  unfolding walk_tags
  walk_tags-Words max_ranges limit zero p found w = w
  walk_tags-Words max_ranges limit (suc fuel) p found w =
      elim (Bool-cases (leb ((p + 8) % 2 ^ 64) limit)) [
        | inr past ↦ rw (past, walk_tags, Words) w
        | inl inside ↦ elim (Option-cases (load 4 mem p)) [
          | inl unmapped ↦ rw (inside, unmapped, walk_tags, Words) w
          | inr (kind, is) ↦ elim (Option-cases (load 4 mem ((p + 4) % 2 ^ 64))) [
            | inl unmapped ↦ rw (inside, is, unmapped, walk_tags, Words) w
            | inr (size, is') ↦
                let tag = read_tag-Words max_ranges limit p kind size found w in
                elim (Walk-cases (read_tag mem max_ranges limit p kind size found)) [
                  | inr (status, found', e) ↦
                      rw (inside, is, is', e, walk_tags, Words)
                        (subst (λ x. Words (found_of x)) e tag)
                  | inl (found', e) ↦
                      rw (inside, is, is', e, walk_tags, Words)
                        (walk_tags-Words max_ranges limit fuel (align_up8 ((p + size) % 2 ^ 64))
                          found' (subst (λ x. Words (found_of x)) e tag))
                ]
          ]
        ]
      ]

  pub mb2_init-Words :
      (ranges_null info_end_null : Bool) (max_ranges info_addr : ℕ)
      → Words (mb2_init mem ranges_null info_end_null max_ranges info_addr).found
  unfolding mb2_init
  mb2_init-Words ranges_null info_end_null max_ranges info_addr =
      elim (Bool-cases (ranges_null || info_end_null || max_ranges == 0)) [
        | inl null ↦ rw (null, Words) _
        | inr given ↦ elim (Option-cases (load 4 mem info_addr)) [
          | inl unmapped ↦ rw (given, unmapped, Words) _
          | inr (total_size, is) ↦ elim (Bool-cases (total_size == 0 || ltb 0x100000 total_size)) [
            | inl bad ↦ rw (given, is, bad, Words) _
            | inr good ↦ rw (given, is, good, Words) (walk_tags-Words max_ranges _ _ _ [] _)
          ]
        ]
      ]

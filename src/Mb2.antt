-- ===== src/Mb2.antt =====
-- src/mb2.c and mb2.h: the walk over the tags of the boot information. Memory is a partial map from
-- addresses to bytes, and a read of a byte that is not mapped is a page fault.
pub mod Entries
pub mod Safe
pub mod Words
mod Tests
use god_os.Base.{
  ℕ, zero, suc, ◌+◌, ◌-◌, ◌*◌, ◌/◌, ◌%◌, ◌^◌, ◌==◌, ltb, leb, if◌then◌else◌, Bool, true, false, not,
  ◌||◌, Option, none, some, List, [], ◌∷◌, ◌++◌, length, bit_and,
}
use god_os.Pmm.{Range}

abbrev tag_end : ℕ
tag_end = 0

abbrev tag_mmap : ℕ
tag_mmap = 6

abbrev type_available : ℕ
type_available = 1

abbrev pub Memory : Type 0
Memory = ℕ → Option ℕ

-- `n` bytes from `p` on, the lowest first; none if one of them is not mapped.
unfoldable pub load : ℕ → Memory → ℕ → Option ℕ
load zero mem p = some 0
load (suc n) mem p = elim (mem p) [
  | none ↦ none
  | some b ↦ elim (load n mem (p + 1)) [ none ↦ none | some high ↦ some (b + 256 * high) ]
]

-- `mb2_align_up8`
unfoldable pub align_up8 : ℕ → ℕ
align_up8 x = bit_and ((x + 7) % 2 ^ 64) (2 ^ 64 - 8)

-- How the walk ends: with all ranges found, with -1, or with a page fault.
pub data Status : Type 0 where
  ok error fault out_of_fuel : Status

-- The walk goes on with the ranges found so far, or has ended.
pub data Walk : Type 0 where
  go : List Range → Walk
  stop : Status → List Range → Walk

-- An entry read: base, length and type. A full array is an error.
unfoldable pub keep_entry : ℕ → ℕ → ℕ → ℕ → List Range → Walk
keep_entry max_ranges base len kind found =
    if not (kind == type_available)
    then go found
    else if leb max_ranges (length found)
    then stop error found
    else go (found ++ (record { base = base; length = len } ∷ []))

unfoldable pub read_entry : Memory → ℕ → ℕ → List Range → Walk
read_entry mem max_ranges e found = elim (load 8 mem e) [
  | none ↦ stop fault found
  | some base ↦ elim (load 8 mem ((e + 8) % 2 ^ 64)) [
    | none ↦ stop fault found
    | some len ↦ elim (load 4 mem ((e + 16) % 2 ^ 64)) [
      | none ↦ stop fault found
      | some kind ↦ keep_entry max_ranges base len kind found
    ]
  ]
]

-- One round of the loop over the entries of the tag of `size` bytes at `p`.
unfoldable pub take_entry : Memory → ℕ → ℕ → ℕ → ℕ → ℕ → List Range → Walk
take_entry mem max_ranges p size entry_size i found =
    let e = (p + 16 + i * entry_size) % 2 ^ 64 in
    if ltb ((p + size) % 2 ^ 64) ((e + 24) % 2 ^ 64)
    then stop error found
    else read_entry mem max_ranges e found

unfoldable pub take_entries : Memory → ℕ → ℕ → ℕ → ℕ → ℕ → ℕ → List Range → Walk
take_entries mem max_ranges p size entry_size zero i found = go found
take_entries mem max_ranges p size entry_size (suc n) i found =
    elim (take_entry mem max_ranges p size entry_size i found) [
      | go found' ↦ take_entries mem max_ranges p size entry_size n (i + 1) found'
      | stop status found' ↦ stop status found'
    ]

-- The memory map tag.
unfoldable pub read_mmap : Memory → ℕ → ℕ → ℕ → List Range → Walk
read_mmap mem max_ranges p size found =
    if ltb size 16 then stop error found else elim (load 4 mem ((p + 8) % 2 ^ 64)) [
      | none ↦ stop fault found
      | some entry_size ↦
          if ltb entry_size 24
          then stop error found
          else take_entries mem max_ranges p size entry_size ((size - 16) / entry_size) 0 found
    ]

-- A tag read: its type and its size.
unfoldable pub read_tag : Memory → ℕ → ℕ → ℕ → ℕ → ℕ → List Range → Walk
read_tag mem max_ranges limit p kind size found =
    if kind == tag_end
    then stop ok found
    else if ltb size 8 || ltb limit ((p + size) % 2 ^ 64)
    then stop error found
    else if kind == tag_mmap
    then read_mmap mem max_ranges p size found
    else go found

-- The `while (p + 8 <= end)` loop.
unfoldable pub walk_tags : Memory → ℕ → ℕ → ℕ → ℕ → List Range → Status × List Range
walk_tags mem max_ranges limit zero p found = (out_of_fuel, found)
walk_tags mem max_ranges limit (suc fuel) p found = elim (leb ((p + 8) % 2 ^ 64) limit) [
  | false ↦ (ok, found)
  | true ↦ elim (load 4 mem p) [
    | none ↦ (fault, found)
    | some kind ↦ elim (load 4 mem ((p + 4) % 2 ^ 64)) [
      | none ↦ (fault, found)
      | some size ↦ elim (read_tag mem max_ranges limit p kind size found) [
        | stop status found' ↦ (status, found')
        | go found' ↦ walk_tags mem max_ranges limit fuel (align_up8 ((p + size) % 2 ^ 64)) found'
      ]
    ]
  ]
]

-- What `mb2_init` leaves: the status, the ranges stored, and `*info_end` if it is written.
pub record Parsed : Type 0 where
  pub status : Status
  pub found : List Range
  pub info_end : Option ℕ

-- Every tag takes 8 bytes at least of the at most 1 MB.
unfoldable pub max_tags : ℕ
max_tags = 0x100000 / 8 + 1

-- `ranges` and `info_end` are given by whether they are null, and `max_ranges` is not negative.
unfoldable pub mb2_init : Memory → Bool → Bool → ℕ → ℕ → Parsed
mb2_init mem ranges_null info_end_null max_ranges info_addr =
    if ranges_null || info_end_null || max_ranges == 0
    then record { status = error; found = []; info_end = none }
    else elim (load 4 mem info_addr) [
      | none ↦ record { status = fault; found = []; info_end = none }
      | some total_size ↦
          if total_size == 0 || ltb 0x100000 total_size
          then record { status = error; found = []; info_end = none }
          else let limit = (info_addr + total_size) % 2 ^ 64 in
            let (status, found) =
              walk_tags mem max_ranges limit max_tags ((info_addr + 8) % 2 ^ 64) [] in
            record { status = status; found = found; info_end = some limit }
    ]
